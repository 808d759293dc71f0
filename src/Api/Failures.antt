-- ===== src/Api/Failures.antt =====
-- How failures reach the callers, the log and the user.
use chirpstack_simulator.Prelude.{
  ℕ, Text, Bool, true, false, List, [], ◌∷◌, ◌++◌, ◌+◌, ◌≡◌, ◌≢◌, ◌↔◌, ◌≤◌, ◌<◌, codes,
  if◌then◌else◌, arith, Bool-cases, inl, inr, text_eq, text_eq_iff, refl, ◌&&◌, sym, ◌==◌, ==_iff,
  ◌∙◌,
}
use chirpstack_simulator.Api.{
  Fetched, response, network_error, Body, Call, Effect, show_login_screen, log_failed,
  log_network_error, needs_login, body_of, api, not, text_eq,
}

text_ne_iff : (a b : Text) → (not (text_eq a b) ≡ true) ↔ (a ≢ b)
text_ne_iff a b = elim (Bool-cases (text_eq a b)) [
  | inl e ↦ rw e (λ h. absurd (cc), λ ne. absurd (ne ((text_eq_iff a b).0 e)))
  | inr e ↦ rw e (λ h same. absurd (cc (e, (text_eq_iff a b).1 same)), λ ne. refl)
]

three_parts : (a b c : Bool) → (a && b && c) ≡ true → (a ≡ true) × (b ≡ true) × (c ≡ true)
three_parts true true true h = (refl, refl, refl)
three_parts true true false h = absurd cc
three_parts true false c h = absurd cc
three_parts false b c h = absurd cc

and_whole : (a b c : Bool) → a ≡ true → b ≡ true → c ≡ true → (a && b && c) ≡ true
and_whole a b c p q r = simp (p, q, r) refl

needs_login_iff :
    (status : ℕ) (path : Text)
    → (needs_login status path ≡ true)
      ↔ ((status ≡ 401) × (path ≢ codes "/api/auth/login") × (path ≢ codes "/api/auth/status"))
unfolding needs_login
needs_login_iff status path =
    let login = text_ne_iff path (codes "/api/auth/login") in
    let state = text_ne_iff path (codes "/api/auth/status") in
    (
      λ h.
          let parts = three_parts (status == 401) (not (text_eq path _)) (not (text_eq path _)) h in
          ((==_iff status 401).0 parts.0, login.0 parts.1, state.0 parts.2),
      λ (is_401, other, another).
          and_whole (status == 401) (not (text_eq path _)) (not (text_eq path _))
            ((==_iff status 401).1 is_401) (login.1 other) (state.1 another),
    )

abbrev once : Bool → ℕ
once b = if b then 1 else 0

once_bounded : (b : Bool) → once b ≤ 1
once_bounded true = omega arith
once_bounded false = omega arith

once_iff : (b : Bool) → (once b ≡ 1) ↔ (b ≡ true)
once_iff b = ground arith

module _ {Json : Type 0} where
  -- What `fetch` promises of an answer: `ok` says that its status is one of success.
  abbrev pub Documented : Fetched Json → Type 0
  Documented (network_error message) = Unit
  Documented (response r) = (200 ≤ r.status) × ((r.ok ≡ true) ↔ (r.status < 300))

  -- The entries of the log, and the openings of the login screen.
  abbrev pub entries : List (Effect Json) → ℕ
  entries [] = 0
  entries (show_login_screen ∷ es) = entries es
  entries (log_failed c n b ∷ es) = 1 + entries es
  entries (log_network_error c m ∷ es) = 1 + entries es

  abbrev pub logins : List (Effect Json) → ℕ
  logins [] = 0
  logins (show_login_screen ∷ es) = 1 + logins es
  logins (log_failed c n b ∷ es) = logins es
  logins (log_network_error c m ∷ es) = logins es

  -- The server has given an answer of this status.
  abbrev pub Answered : Fetched Json → ℕ → Type 0
  Answered (network_error message) status = ⊥
  Answered (response r) status = r.status ≡ status

  logins-login_logged :
      (opens ok : Bool) (call : Call Json) (n : ℕ) (b : Body Json)
      → logins (
          (if opens then show_login_screen ∷ [] else [])
          ++ (if not ok then log_failed call n b ∷ [] else []))
        ≡ once opens
  logins-login_logged true true call n b = refl
  logins-login_logged true false call n b = refl
  logins-login_logged false true call n b = refl
  logins-login_logged false false call n b = refl

  entries-login_logged :
      (opens ok : Bool) (call : Call Json) (n : ℕ) (b : Body Json)
      → entries (
          (if opens then show_login_screen ∷ [] else [])
          ++ (if not ok then log_failed call n b ∷ [] else []))
        ≡ (if ok then 0 else 1)
  entries-login_logged true true call n b = refl
  entries-login_logged true false call n b = refl
  entries-login_logged false true call n b = refl
  entries-login_logged false false call n b = refl

  -- Whatever happens to a request, its caller gets a reply, where `ok` of an answer stands for a
  -- status from 200 to 299, as `fetch` promises. The reply is ok exactly if the server gave an
  -- answer of success, its status is 0 exactly if the server gave none, and the log gets one entry
  -- if it is not ok and none if it is. The login screen is opened once or not at all: once exactly
  -- if the answer is 401 and the path is not one of the two by which the login itself is done.
  pub api-failures :
      (call : Call Json) (fetched : Fetched Json)
      → Documented fetched
      → ((((api call fetched).0).ok ≡ true)
          ↔ ((status : ℕ) × Answered fetched status × (status < 300)))
        × ((((api call fetched).0).status ≡ 0) ↔ ¬ ((status : ℕ) × Answered fetched status))
        × (entries (api call fetched).1 ≡ (if ((api call fetched).0).ok then 0 else 1))
        × (logins (api call fetched).1 ≤ 1)
        × ((logins (api call fetched).1 ≡ 1) ↔ (
            Answered fetched 401
            × (call.path ≢ codes "/api/auth/login")
            × (call.path ≢ codes "/api/auth/status")))
  unfolding api
  api-failures call (network_error message) d = (
    (λ h. absurd (cc), λ (status, a, l). absurd a),
    (λ h (status, a). a, λ h. refl),
    refl,
    omega arith,
    (λ h. absurd (omega (arith, h)), λ (a, other, another). absurd a),
  )
  api-failures call (response r) d =
      let opens = needs_login r.status call.path in
      let value = body_of r.json in
      let count = logins-login_logged opens r.ok call r.status value in
      let iff = needs_login_iff r.status call.path in
      (
        (λ h. (r.status, refl, d.1.0 h), λ (status, a, l). d.1.1 (rw a l)),
        (λ h. absurd (omega (arith, h, d.0)), λ h. absurd (h (r.status, refl))),
        entries-login_logged opens r.ok call r.status value,
        rw count (once_bounded opens),
        (
          λ h. iff.0 ((once_iff opens).0 (sym count ∙ h)),
          λ h. count ∙ (once_iff opens).1 (iff.1 h),
        ),
      )
