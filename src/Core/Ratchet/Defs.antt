-- ===== src/Core/Ratchet/Defs.antt =====
-- `DoubleRatchet` of core/src/ratchet.rs. Fresh secrets are arguments. A method that may fail after
-- it has changed the state returns the state beside its result. `u32` counters wrap.
use pigeonhole_clarity_messe.Prelude.{
  ℕ, zero, suc, ◌+◌, ◌-◌, ◌%◌, ◌^◌, ◌≡◌, Bool, true, false, Option, none, some, [], ◌∷◌, ◌++◌,
  length, ltb, leb, ◌==◌, ite, ◌||◌, ◌&&◌, if◌then◌else◌, ℕ_discrete, ap,
}
use pigeonhole_clarity_messe.Prelude.Bytes.{Bytes, Bytes_discrete}
use pigeonhole_clarity_messe.Prelude.BTreeMap
use pigeonhole_clarity_messe.Prelude.BTreeMap.{BTreeMap}
use pigeonhole_clarity_messe.Prelude.Result.{Result, ok, err}
use pigeonhole_clarity_messe.Core.Error.{Error}
use pigeonhole_clarity_messe.Core.Wire.{RatchetHeader}
use pigeonhole_clarity_messe.Core.Crypto.{Crypto}
use pigeonhole_clarity_messe.Core.Kdf

abbrev pub max_skip : ℕ
max_skip = 1000

abbrev pub max_skipped_cache : ℕ
max_skipped_cache = 4000

abbrev pub u32_mod : ℕ
u32_mod = 2 ^ 32

-- A remote ratchet key and a message number.
abbrev pub SkippedKey : Type 0
SkippedKey = Bytes × ℕ

pair-first : {a b : Bytes} {m n : ℕ} → ◌≡◌ {A = SkippedKey} (a, m) (b, n) → a ≡ b
pair-first e = ap (λ (p : SkippedKey). p.0) e

pair-second : {a b : Bytes} {m n : ℕ} → ◌≡◌ {A = SkippedKey} (a, m) (b, n) → m ≡ n
pair-second e = ap (λ (p : SkippedKey). p.1) e

unfoldable pub SkippedKey_discrete : Discrete SkippedKey
unfolding Bytes_discrete ℕ_discrete pair-first pair-second
SkippedKey_discrete (a, m) (b, n) = elim (Bytes_discrete a b) [
  | yes p ↦ elim (ℕ_discrete m n) [
    | yes q ↦ yes (λ i. (p i, q i))
    | no q ↦ no (λ e. q (pair-second e))
  ]
  | no p ↦ no (λ e. p (pair-first e))
]

-- `[u8; 32]` and tuples compare lexicographically.
unfoldable pub bytes_before : Bytes → Bytes → Bool
bytes_before [] [] = false
bytes_before [] (y ∷ ys) = true
bytes_before (x ∷ xs) [] = false
bytes_before (x ∷ xs) (y ∷ ys) = let rest = bytes_before xs ys in ltb x y || (x == y && rest)

unfoldable pub key_before : SkippedKey → SkippedKey → Bool
unfolding bytes_before Bytes_discrete
key_before (a, m) (b, n) = bytes_before a b || ite (Bytes_discrete a b) (ltb m n) false

pub record DoubleRatchet : Type 0 where
  pub root_key : Bytes
  pub dh_self : Bytes
  pub dh_self_pub : Bytes
  pub dh_remote : Option Bytes
  pub chain_send : Option Bytes
  pub chain_recv : Option Bytes
  pub n_send : ℕ
  pub n_recv : ℕ
  pub pn : ℕ
  pub skipped : BTreeMap SkippedKey Bytes

abbrev pub cached : DoubleRatchet → Bytes → ℕ → Option Bytes
cached r remote n = BTreeMap.get SkippedKey_discrete r.skipped (remote, n)

-- `self.dh_remote != Some(header.dh_pub)`.
unfoldable pub is_remote : Option Bytes → Bytes → Bool
is_remote none dh_pub = false
is_remote (some remote) dh_pub = ite (Bytes_discrete remote dh_pub) true false

module _ (c : Crypto) (encode_header : RatchetHeader → Bytes) where
  open c use {public_key, diffie_hellman}

  unfoldable pub init_initiator : Bytes → Bytes → Bytes → DoubleRatchet
  init_initiator dh_self root remote_dh_pub =
      let (root_key, chain_send) = Kdf.kdf_rk c root (diffie_hellman dh_self remote_dh_pub) in
      record {
        root_key = root_key;
        dh_self = dh_self;
        dh_self_pub = public_key dh_self;
        dh_remote = some remote_dh_pub;
        chain_send = some chain_send;
        chain_recv = none;
        n_send = 0;
        n_recv = 0;
        pn = 0;
        skipped = [];
      }

  unfoldable pub init_responder : Bytes → Bytes → DoubleRatchet
  init_responder root dh_self = record {
    root_key = root;
    dh_self = dh_self;
    dh_self_pub = public_key dh_self;
    dh_remote = none;
    chain_send = none;
    chain_recv = none;
    n_send = 0;
    n_recv = 0;
    pn = 0;
    skipped = [];
  }

  unfoldable pub associated_data : Bytes → RatchetHeader → Bytes
  associated_data prefix header = prefix ++ encode_header header

  abbrev pub header_of : DoubleRatchet → RatchetHeader
  header_of r = record { dh_pub = r.dh_self_pub; pn = r.pn; n = r.n_send }

  abbrev pub encrypt_with :
      DoubleRatchet
      → Bytes
      → Bytes
      → Option Bytes
      → Result Error (DoubleRatchet × RatchetHeader × Bytes)
  encrypt_with r plaintext ad_prefix none = err Error.unexpected_message
  encrypt_with r plaintext ad_prefix (some ck) =
      let (next_ck, mk) = Kdf.kdf_ck c ck in
      ok (
        record r { chain_send = some next_ck; n_send = (r.n_send + 1) % u32_mod },
        header_of r,
        Kdf.aead_seal c mk plaintext (associated_data ad_prefix (header_of r)),
      )

  unfoldable pub encrypt :
      DoubleRatchet → Bytes → Bytes → Result Error (DoubleRatchet × RatchetHeader × Bytes)
  unfolding associated_data
  encrypt r plaintext ad_prefix = encrypt_with r plaintext ad_prefix r.chain_send

  -- The `while self.n_recv < until` loop with the rounds that are left; a full cache ends it with
  -- an error. The local `ck` is written back to the state by the caller, on success only.
  unfoldable pub skip_loop : ℕ → Bytes → Bytes → DoubleRatchet → DoubleRatchet × Result Error Bytes
  skip_loop zero remote ck r = (r, ok ck)
  skip_loop (suc rounds) remote ck r =
      let (next_ck, mk) = Kdf.kdf_ck c ck in
      let rest = skip_loop rounds remote next_ck (record r {
        skipped = BTreeMap.insert SkippedKey_discrete key_before r.skipped (remote, r.n_recv) mk;
        n_recv = r.n_recv + 1;
      }) in
      if leb max_skipped_cache (length r.skipped) then (r, err Error.decrypt) else rest

  abbrev pub store_chain :
      DoubleRatchet × Result Error Bytes → DoubleRatchet × Result Error (Unit {0})
  store_chain (r, ok ck) = (record r { chain_recv = some ck }, ok tt)
  store_chain (r, err e) = (r, err e)

  abbrev pub skip_remote :
      DoubleRatchet → ℕ → Bytes → Option Bytes → DoubleRatchet × Result Error (Unit {0})
  skip_remote r until ck none = (r, err Error.decrypt)
  skip_remote r until ck (some remote) = store_chain (skip_loop (until - r.n_recv) remote ck r)

  abbrev pub skip_chain : DoubleRatchet → ℕ → Option Bytes → DoubleRatchet × Result Error (Unit {0})
  skip_chain r until none = (r, ok tt)
  skip_chain r until (some ck) =
      if ltb until r.n_recv
      then (r, ok tt)
      else if ltb max_skip (until - r.n_recv)
      then (r, err Error.decrypt)
      else skip_remote r until ck r.dh_remote

  unfoldable pub skip_message_keys : DoubleRatchet → ℕ → DoubleRatchet × Result Error (Unit {0})
  unfolding skip_loop
  skip_message_keys r until = skip_chain r until r.chain_recv

  unfoldable pub dh_ratchet : Bytes → DoubleRatchet → Bytes → DoubleRatchet
  dh_ratchet new_self r remote_pub =
      let (root_recv, chain_recv) = Kdf.kdf_rk c r.root_key (diffie_hellman r.dh_self remote_pub) in
      let (root_send, chain_send) = Kdf.kdf_rk c root_recv (diffie_hellman new_self remote_pub) in
      record r {
        pn = r.n_send;
        n_send = 0;
        n_recv = 0;
        dh_remote = some remote_pub;
        root_key = root_send;
        chain_recv = some chain_recv;
        dh_self_pub = public_key new_self;
        dh_self = new_self;
        chain_send = some chain_send;
      }

  -- Step 3 of `decrypt`, after the skip: one key of the receiving chain.
  abbrev pub open_next :
      DoubleRatchet → Bytes → Bytes → Option Bytes → DoubleRatchet × Result Error Bytes
  open_next r ciphertext ad none = (r, err Error.decrypt)
  open_next r ciphertext ad (some ck) =
      let (next_ck, mk) = Kdf.kdf_ck c ck in
      (
        record r { chain_recv = some next_ck; n_recv = (r.n_recv + 1) % u32_mod },
        Kdf.aead_open c mk ciphertext ad,
      )

  abbrev pub after_skip :
      Bytes → Bytes → DoubleRatchet × Result Error (Unit {0}) → DoubleRatchet × Result Error Bytes
  after_skip ciphertext ad (r, ok _) = open_next r ciphertext ad r.chain_recv
  after_skip ciphertext ad (r, err e) = (r, err e)

  unfoldable pub decrypt_current :
      DoubleRatchet → RatchetHeader → Bytes → Bytes → DoubleRatchet × Result Error Bytes
  unfolding skip_message_keys
  decrypt_current r header ciphertext ad = after_skip ciphertext ad (skip_message_keys r header.n)

  -- Step 2 of `decrypt`: the rest of the old chain is skipped, then the Diffie-Hellman step.
  abbrev pub after_old_chain :
      Bytes
      → RatchetHeader
      → DoubleRatchet × Result Error (Unit {0})
      → DoubleRatchet × Result Error (Unit {0})
  after_old_chain new_self header (r, ok _) = (dh_ratchet new_self r header.dh_pub, ok tt)
  after_old_chain new_self header (r, err e) = (r, err e)

  unfoldable pub turn :
      Bytes → DoubleRatchet → RatchetHeader → DoubleRatchet × Result Error (Unit {0})
  unfolding skip_message_keys dh_ratchet is_remote
  turn new_self r header =
      if is_remote r.dh_remote header.dh_pub
      then (r, ok tt)
      else after_old_chain new_self header (skip_message_keys r header.pn)

  abbrev pub after_turn :
      RatchetHeader
      → Bytes
      → Bytes
      → DoubleRatchet × Result Error (Unit {0})
      → DoubleRatchet × Result Error Bytes
  after_turn header ciphertext ad (r, ok _) = decrypt_current r header ciphertext ad
  after_turn header ciphertext ad (r, err e) = (r, err e)

  -- Step 1 of `decrypt`: a cached key is taken out and used, whatever the outcome.
  abbrev pub decrypt_cached :
      Bytes
      → DoubleRatchet
      → RatchetHeader
      → Bytes
      → Bytes
      → Option Bytes
      → DoubleRatchet × Result Error Bytes
  decrypt_cached new_self r header ciphertext ad (some mk) = (
    record r { skipped = BTreeMap.remove SkippedKey_discrete r.skipped (header.dh_pub, header.n) },
    Kdf.aead_open c mk ciphertext ad,
  )
  decrypt_cached new_self r header ciphertext ad none =
      after_turn header ciphertext ad (turn new_self r header)

  -- `new_self` is the secret that a Diffie-Hellman step would draw.
  unfoldable pub decrypt :
      Bytes → DoubleRatchet → RatchetHeader → Bytes → Bytes → DoubleRatchet × Result Error Bytes
  unfolding decrypt_current turn associated_data
  decrypt new_self r header ciphertext ad_prefix =
      decrypt_cached new_self r header ciphertext (associated_data ad_prefix header)
        (cached r header.dh_pub header.n)
