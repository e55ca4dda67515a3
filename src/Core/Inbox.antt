-- ===== src/Core/Inbox.antt =====
-- Rotating inbox ids (core/src/inbox.rs). SHA-256 is the parameter `sha256`.
use pigeonhole_clarity_messe.Prelude.{
  ℕ, zero, suc, ◌+◌, ◌-◌, ◌/◌, ◌%◌, ◌≤◌, ◌<◌, ◌≡◌, refl, ap, ◌∙◌, Option, none, some, List, [], ◌∷◌,
  ◌++◌, length, ltb, arith, if◌then◌else◌, false,
}
use pigeonhole_clarity_messe.Prelude.Bytes.{Bytes, ascii}

abbrev pub inbox_epoch_seconds : ℕ
inbox_epoch_seconds = 86_400

unfoldable pub epoch_for_unix : ℕ → ℕ
epoch_for_unix unix_seconds = unix_seconds / inbox_epoch_seconds

-- The low `count` bytes of a number, least first; `to_le_bytes` of a `u64` has eight.
unfoldable pub le_bytes : ℕ → ℕ → Bytes
le_bytes zero n = []
le_bytes (suc count) n = n % 256 ∷ le_bytes count (n / 256)

-- The element of a list at an index.
abbrev pub get_elem? {ℓ} : {A : Type ℓ} → List A → ℕ → Option A
get_elem? [] n = none
get_elem? (x ∷ xs) zero = some x
get_elem? (x ∷ xs) (suc n) = get_elem? xs n

module _ (sha256 : Bytes → Bytes) where
  unfoldable pub inbox_id : Bytes → ℕ → Bytes
  unfolding le_bytes
  inbox_id identity_ed epoch =
      sha256 ((ascii "Clarity-inbox-v1" ++ identity_ed) ++ le_bytes 8 epoch)

  -- The range `from_epoch..=to_epoch`, with as many epochs as are left.
  unfoldable pub ids_from : Bytes → ℕ → ℕ → List Bytes
  ids_from identity_ed zero epoch = []
  ids_from identity_ed (suc left) epoch =
      inbox_id identity_ed epoch ∷ ids_from identity_ed left (epoch + 1)

  unfoldable pub inbox_window : Bytes → ℕ → ℕ → List Bytes
  unfolding ids_from
  inbox_window identity_ed from_epoch to_epoch =
      if ltb to_epoch from_epoch
      then []
      else ids_from identity_ed (to_epoch - from_epoch + 1) from_epoch

  length-ids_from : (id : Bytes) (left e : ℕ) → length (ids_from id left e) ≡ left
  unfolding ids_from
  length-ids_from id zero e = refl
  length-ids_from id (suc left) e = ap suc (length-ids_from id left (e + 1))

  get_elem?-ids_from :
      (id : Bytes) (left e k : ℕ)
      → k < left
      → get_elem? (ids_from id left e) k ≡ some (inbox_id id (e + k))
  unfolding ids_from
  get_elem?-ids_from id zero e k h = absurd (omega arith)
  get_elem?-ids_from id (suc left) e zero h =
      let same : e ≡ e + 0 = omega arith in ap (λ (j : ℕ). some (inbox_id id j)) same
  get_elem?-ids_from id (suc left) e (suc k) h =
      let same : e + 1 + k ≡ e + suc k = omega arith in
      get_elem?-ids_from id left (e + 1) k (omega arith) ∙ ap (λ (j : ℕ). some (inbox_id id j)) same

  -- A receiver whose window spans the epoch of the moment at which a sender wrote polls the inbox
  -- that the sender addressed, at the epoch's place in the window; the window has one inbox for each
  -- of its epochs.
  pub inbox_window-covers :
      (identity_ed : Bytes) (from_epoch to_epoch sent_at : ℕ)
      → from_epoch ≤ epoch_for_unix sent_at
      → epoch_for_unix sent_at ≤ to_epoch
      → (get_elem?
            (inbox_window identity_ed from_epoch to_epoch)
            (epoch_for_unix sent_at - from_epoch)
          ≡ some (inbox_id identity_ed (epoch_for_unix sent_at)))
        × (length (inbox_window identity_ed from_epoch to_epoch) ≡ to_epoch - from_epoch + 1)
  unfolding inbox_window
  inbox_window-covers identity_ed from_epoch to_epoch sent_at h k =
      let e = epoch_for_unix sent_at in
      let upright : ltb to_epoch from_epoch ≡ false = ground arith in
      let place : from_epoch + (e - from_epoch) ≡ e = omega arith in
      rw upright (
        get_elem?-ids_from identity_ed (to_epoch - from_epoch + 1) from_epoch (e - from_epoch)
              (omega arith)
            ∙ ap (λ (j : ℕ). some (inbox_id identity_ed j)) place,
        length-ids_from identity_ed (to_epoch - from_epoch + 1) from_epoch,
      )
