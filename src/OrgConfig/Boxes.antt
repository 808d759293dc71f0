-- ===== src/OrgConfig/Boxes.antt =====
-- The check boxes of the anomaly types, and the text that stands for those that are checked.
use chirpstack_simulator.Prelude.{
  ℕ, Text, Bool, false, List, [], ◌∷◌, ◌++◌, ◌==◌, ◌||◌, text_eq, if◌then◌else◌, map, filter_by,
}

pub record Box : Type 0 where
  pub value : Text
  pub checked : Bool

-- `join(",")` and `split(",")`
unfoldable pub join : List Text → Text
join [] = []
join (x ∷ []) = x
join (x ∷ y ∷ xs) = x ++ (b',' ∷ join (y ∷ xs))

abbrev pub before_all : ℕ → List Text → List Text
before_all c [] = (c ∷ []) ∷ []
before_all c (x ∷ xs) = (c ∷ x) ∷ xs

unfoldable pub split : Text → List Text
split [] = [] ∷ []
split (c ∷ s) = let rest = split s in if c == b',' then [] ∷ rest else before_all c rest

-- `includes` on a list of texts.
abbrev pub contains : Text → List Text → Bool
contains t [] = false
contains t (x ∷ xs) = text_eq x t || contains t xs

unfoldable pub chosen_types : List Box → Text
unfolding join
chosen_types boxes = join (map (λ b. b.value) (filter_by (λ b. b.checked) boxes))

abbrev pub set_checked : Bool → Box → Box
set_checked checked b = record b { checked = checked }

unfoldable pub check_boxes : Text → List Box → List Box
unfolding split
check_boxes types boxes = map (λ (b : Box). set_checked (contains b.value (split types)) b) boxes

unfoldable pub uncheck_boxes : List Box → List Box
uncheck_boxes boxes = map (set_checked false) boxes
