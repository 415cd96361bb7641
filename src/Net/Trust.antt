-- ===== src/Net/Trust.antt =====
-- crates/kvm-net/src/tls.rs: the fingerprints of certificates and the stores that pin them. SHA-256 is
-- a parameter; certificates, handshakes and signatures are the TLS library's.
pub mod Digest
use self_kvm.Common.{
  ℕ, ◌+◌, ◌/◌, ◌%◌, List, [], ◌∷◌, ◌++◌, Option, none, some, Bool, true, false, ltb, ◌=l=◌, ◌==◌,
  if◌then◌else◌, Result, ok, err,
}
use self_kvm.Common.Map.{Map, lookup, insert}
use self_kvm.Proto.Utf8.{Text}
use self_kvm.Core.FileName.{is_whitespace}

-- `{b:02x}`
abbrev pub hex_digit : ℕ → ℕ
hex_digit d = if ltb d 10 then 0x30 + d else 0x57 + d

abbrev pub hex : ℕ → Text
hex b = hex_digit (b / 16) ∷ hex_digit (b % 16) ∷ []

-- `hex.join(":")`
unfoldable pub join_hex : List ℕ → Text
join_hex [] = []
join_hex (b ∷ []) = hex b
join_hex (b ∷ bs) = hex b ++ (b':' ∷ join_hex bs)

-- `SHA256:`
abbrev pub prefix : Text
prefix = b'S' ∷ b'H' ∷ b'A' ∷ b'2' ∷ b'5' ∷ b'6' ∷ b':' ∷ []

module _ (sha256 : List ℕ → List ℕ) where
  unfoldable pub fingerprint : List ℕ → Text
  unfolding join_hex
  fingerprint cert = prefix ++ join_hex (sha256 cert)

-- Why a certificate is rejected: what the text of the error says.
pub data Reason : Type 0 where
  changed : (identity trusted got : Text) → Reason

abbrev pub Verdict : Type 0
Verdict = Result Reason (Unit {0})

abbrev pub Pins : Type 0
Pins = Map Text

-- The stores' `check` on the map; the flag is whether a pin was recorded.
abbrev pub verdict : Text → Text → Option Text → Verdict
verdict identity got none = ok tt
verdict identity got (some known) =
    if known =l= got then ok tt else err (changed identity known got)

abbrev pub recorded : Text → Text → Option Text → Pins → Pins
recorded identity got none m = insert identity got m
recorded identity got (some known) m = m

unfoldable pub check : Pins → Text → Text → Pins × Verdict
check m identity got =
    let known = lookup identity m in (recorded identity got known m, verdict identity got known)

-- `MemoryTrustStore`: `insert`, `get` and `check`.
pub record MemoryTrustStore : Type 0 where
  pub pins : Pins

abbrev pub new_store : MemoryTrustStore
new_store = record { pins = [] }

unfoldable pub preset : MemoryTrustStore → Text → Text → MemoryTrustStore
preset s identity fp = record { pins = insert identity fp s.pins }

unfoldable pub get : MemoryTrustStore → Text → Option Text
get s identity = lookup identity s.pins

unfoldable pub memory_check : MemoryTrustStore → Text → Text → MemoryTrustStore × Verdict
unfolding check
memory_check s identity got = let r = check s.pins identity got in (record { pins = r.0 }, r.1)

-- The verifier of one connection: `verify_server_cert`.
unfoldable pub verify_server_cert : (List ℕ → List ℕ) → Text → Pins → List ℕ → Pins × Verdict
unfolding check fingerprint
verify_server_cert sha256 identity m end_entity = check m identity (fingerprint sha256 end_entity)
