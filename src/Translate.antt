-- ===== src/Translate.antt =====
-- internal/api/frontend/js/translate.js: `t`, over the tables of texts, which are an argument, and the
-- manual sync of passive-sync.js, whose notices are its texts.
use chirpstack_simulator.Prelude.{
  Text, Option, none, some, codes, text_or, truthy, ◌++◌, ◌≡◌, true, Bool, [], ◌∷◌, refl, false,
  ◌∙◌, sym,
}

-- `tables` are the dictionaries by language, each from keys to texts; that of Turkish is there.
module _ (tables : Text → Option (Text → Option Text)) where
  unfoldable pub entry : Option Text → Text
  entry none = []
  entry (some text) = text

  unfoldable pub dict_or : Option (Text → Option Text) → Option (Text → Option Text) → Text → Text
  dict_or none none key = []
  dict_or none (some turkish) key = entry (turkish key)
  dict_or (some dict) turkish key = entry (dict key)

  unfoldable pub t : Text → Text → Text
  t language key =
      text_or (dict_or (tables (text_or language (codes "tr"))) (tables (codes "tr")) key) key

  -- How triggerManualSync ends: whether it asks for the status two seconds later, and its notice.
  pub record SyncEnd : Type 0 where
    pub refresh_due : Bool
    pub notice : Text

  -- The answer: ok, or the text of its error.
  pub data Trigger : Type 0 where
    triggered : Trigger
    failed : Text → Trigger

  -- `t(…) || "…" + err`: the sum belongs to the fallback.
  unfoldable pub trigger_manual_sync : Text → Trigger → SyncEnd
  trigger_manual_sync language triggered = record {
    refresh_due = true;
    notice = text_or (t language (codes "sync_triggered")) (codes "Senkronizasyon tetiklendi.");
  }
  trigger_manual_sync language (failed error) = record {
    refresh_due = false;
    notice =
        text_or (t language (codes "sync_failed"))
          (codes "Senkronizasyon başarısız: " ++ text_or error (codes "Bilinmeyen hata"));
  }

  text_or_key :
      (a key fallback : Text) → truthy key ≡ true → text_or (text_or a key) fallback ≡ text_or a key
  text_or_key [] [] fallback h = cc
  text_or_key [] (c ∷ key) fallback h = refl
  text_or_key (c ∷ a) key fallback h = refl

  -- A text that stands behind `t(key) ||` is never shown, whatever the tables hold.
  pub text_or-t :
      (language key fallback : Text)
      → truthy key ≡ true
      → text_or (t language key) fallback ≡ t language key
  unfolding t
  text_or-t language key fallback h = text_or_key _ key fallback h

  -- So the notice of a failed manual sync is the same for every error.
  pub trigger_manual_sync_failed :
      (language error other : Text)
      → (trigger_manual_sync language (failed error)).notice
        ≡ (trigger_manual_sync language (failed other)).notice
  unfolding trigger_manual_sync
  trigger_manual_sync_failed language error other =
      text_or-t language (codes "sync_failed") _ refl
      ∙ sym (text_or-t language (codes "sync_failed") _ refl)
