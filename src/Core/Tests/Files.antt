-- ===== src/Core/Tests/Files.antt =====
-- The transfer of crates/kvm-core/src/file_transfer.rs on small files.
use self_kvm.Common.{ℕ, List, [], ◌∷◌, ◌++◌, ◌≡◌, refl, arith, err}
use self_kvm.Proto.Utf8.{Text}
use self_kvm.Core.FileName
use self_kvm.Core.FileName.{FileError, sanitize_filename, out_of_order}
use self_kvm.Core.FileName.Safe.{IsSafe, sanitize_filename-IsSafe}
use self_kvm.Core.FileTransfer.{FileReassembler, accept}
use self_kvm.Core.FileTransfer.Accept.{IsAccounted, accept_refused}

-- `../a.txt` and `a.txt`
abbrev climbing : Text
climbing = b'.' ∷ b'.' ∷ b'/' ∷ b'a' ∷ b'.' ∷ b't' ∷ b'x' ∷ b't' ∷ []

abbrev plain : Text
plain = b'a' ∷ b'.' ∷ b't' ∷ b'x' ∷ b't' ∷ []

sanitize_filename-IsSafe_example : IsSafe plain × ((p : Text) × (climbing ≡ p ++ plain))
unfolding sanitize_filename
sanitize_filename-IsSafe_example = sanitize_filename-IsSafe climbing plain refl

-- `.ssh` is refused.
hidden :
    sanitize_filename (b'.' ∷ b's' ∷ b's' ∷ b'h' ∷ [])
    ≡ err (FileName.invalid_name (b'.' ∷ b's' ∷ b's' ∷ b'h' ∷ []))
unfolding sanitize_filename
hidden = refl

-- A receiver of ten bytes that has three of them.
abbrev half_way : FileReassembler
half_way = record { id = 7; name = plain; declared_size = 10; next_seq = 1; received = 3 }

half_way_ok : IsAccounted half_way
half_way_ok = record {
  size_u64 = omega arith;
  seq_u32 = omega arith;
  within = omega arith;
  paid = omega arith;
  bounded = omega arith;
}

abbrev two : List ℕ
two = 65 ∷ 66 ∷ []

accept_refused_example : (accept half_way 7 2 two).0 ≡ half_way
unfolding accept
accept_refused_example = accept_refused half_way 7 2 two (out_of_order 1 2) refl

abbrev begun : FileReassembler
begun = record { id = 7; name = plain; declared_size = 10; next_seq = 0; received = 0 }

abbrev five : List ℕ
five = 1 ∷ 2 ∷ 3 ∷ 4 ∷ 5 ∷ []
