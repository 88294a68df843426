-- ===== src/Events/Redaction/Secrets.antt =====
-- What redaction removes and what it leaves.
use cyclewarden.Prelude.{
  ◌≡◌, refl, ap, ◌⊎◌, inl, inr, false, String, Json, null, bool, num, str, arr, obj, Items, nil,
  cons, Fields, end, field, Bool-cases, arith,
}
use cyclewarden.Events.Redaction.{
  is_secret_key, is_hidden, secret_field, redact_secrets, redact_items, redact_fields,
}
use cyclewarden.Events.Redaction.Patterns.{string_patterns}
use cyclewarden.Events.Redaction.Leftmost.{HasNoSecret, quiet_redaction}

-- Under each secret key, at any depth, stands `null` or the mark of a redaction.
abbrev mutual
  pub IsClean : Json → Type 0
  IsClean null = Unit
  IsClean (bool b) = Unit
  IsClean (num n) = Unit
  IsClean (str s) = Unit
  IsClean (arr xs) = AreClean xs
  IsClean (obj fs) = HasCleanFields fs

  pub AreClean : Items → Type 0
  AreClean nil = Unit
  AreClean (cons x xs) = IsClean x × AreClean xs

  pub HasCleanFields : Fields → Type 0
  HasCleanFields end = Unit
  HasCleanFields (field key item fs) =
      ((is_secret_key key ≡ false) ⊎ (item ≡ null) ⊎ (item ≡ secret_field))
      × IsClean item
      × HasCleanFields fs

-- Nothing is left to redact: under each secret key, at any depth, stands `null`, and no pattern matches
-- anywhere in a text.
abbrev mutual
  pub IsFree : Json → Type 0
  IsFree null = Unit
  IsFree (bool b) = Unit
  IsFree (num n) = Unit
  IsFree (str s) = HasNoSecret s string_patterns
  IsFree (arr xs) = AreFree xs
  IsFree (obj fs) = HasFreeFields fs

  pub AreFree : Items → Type 0
  AreFree nil = Unit
  AreFree (cons x xs) = IsFree x × AreFree xs

  pub HasFreeFields : Fields → Type 0
  HasFreeFields end = Unit
  HasFreeFields (field key item fs) = (is_hidden key item ≡ false) × IsFree item × HasFreeFields fs

mutual
  unfolding redact_secrets

  redact_secrets-IsClean : (v : Json) → IsClean (redact_secrets v).0
  redact_secrets-IsClean null = tt
  redact_secrets-IsClean (bool b) = tt
  redact_secrets-IsClean (num n) = tt
  redact_secrets-IsClean (str s) = tt
  redact_secrets-IsClean (arr xs) = redact_items-AreClean xs
  redact_secrets-IsClean (obj fs) = redact_fields-HasCleanFields fs

  redact_items-AreClean : (xs : Items) → AreClean (redact_items xs).0
  redact_items-AreClean nil = tt
  redact_items-AreClean (cons x xs) = (redact_secrets-IsClean x, redact_items-AreClean xs)

  redact_fields-HasCleanFields : (fs : Fields) → HasCleanFields (redact_fields fs).0
  redact_fields-HasCleanFields end = tt
  redact_fields-HasCleanFields (field key item fs) = elim (Bool-cases (is_hidden key item)) [
    | inl hidden ↦ rw hidden (inr (inr refl), tt, redact_fields-HasCleanFields fs)
    | inr shown ↦
        rw shown
          (visible key item shown, redact_secrets-IsClean item, redact_fields-HasCleanFields fs)
  ]

  visible :
      (key : String) (item : Json)
      → is_hidden key item ≡ false
      → (is_secret_key key ≡ false)
        ⊎ ((redact_secrets item).0 ≡ null)
        ⊎ ((redact_secrets item).0 ≡ secret_field)
  visible key null h = inr (inl refl)
  visible key (bool b) h = inl h
  visible key (num n) h = inl h
  visible key (str s) h = inl h
  visible key (arr xs) h = inl h
  visible key (obj fs) h = inl h

-- No secret field survives redaction: in the redacted value, at any depth, each field whose key is
-- a secret one holds `null` or the mark of a redaction.
pub no_secret_field_survives : (v : Json) → IsClean (redact_secrets v).0
no_secret_field_survives v = redact_secrets-IsClean v

mutual
  unfolding redact_secrets

  same_value : (v : Json) → (redact_secrets v).1 ≡ 0 → ((redact_secrets v).0 ≡ v) × IsFree v
  same_value null h = (refl, tt)
  same_value (bool b) h = (refl, tt)
  same_value (num n) h = (refl, tt)
  same_value (str s) h = let (same, free) = quiet_redaction s h in (ap str same, free)
  same_value (arr xs) h = let (same, free) = same_items xs h in (ap arr same, free)
  same_value (obj fs) h = let (same, free) = same_fields fs h in (ap obj same, free)

  same_items : (xs : Items) → (redact_items xs).1 ≡ 0 → ((redact_items xs).0 ≡ xs) × AreFree xs
  same_items nil h = (refl, tt)
  same_items (cons x xs) h =
      let (same, free) = same_value x (omega arith) in
      let (same', free') = same_items xs (omega arith) in (cc (same, same'), (free, free'))

  same_fields :
      (fs : Fields) → (redact_fields fs).1 ≡ 0 → ((redact_fields fs).0 ≡ fs) × HasFreeFields fs
  same_fields end h = (refl, tt)
  same_fields (field key item fs) h = elim (Bool-cases (is_hidden key item)) [
    | inl hidden ↦ absurd (ground arith)
    | inr shown ↦
        let total = rw shown at h in
        let (same, free) = same_value item (omega arith) in
        let (same', free') = same_fields fs (omega arith) in
        (rw shown (cc (same, same')), (shown, free, free'))
  ]

-- A count of zero tells the truth: a value of which nothing was redacted is returned as it was,
-- under each secret key in it stands `null`, and none of the patterns matches anywhere in a text
-- of it.
pub uncounted_is_unchanged :
    (v : Json) → (redact_secrets v).1 ≡ 0 → ((redact_secrets v).0 ≡ v) × IsFree v
uncounted_is_unchanged v h = same_value v h
