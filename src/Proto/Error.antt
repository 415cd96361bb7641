-- ===== src/Proto/Error.antt =====
-- crates/kvm-proto/src/error.rs.
use self_kvm.Common.{ℕ, List, Result}
use self_kvm.Proto.Utf8.{Text}

pub data ProtoError : Type 0 where
  unexpected_eof : (needed had : ℕ) → ProtoError
  unknown_code : List ℕ → ProtoError
  malformed : (code reason : Text) → ProtoError
  too_long : (declared max : ℕ) → ProtoError
  invalid_utf8 : ProtoError

abbrev pub ProtoResult {ℓ} : Type ℓ → Type ℓ
ProtoResult A = Result ProtoError A
