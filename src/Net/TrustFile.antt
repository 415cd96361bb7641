-- ===== src/Net/TrustFile.antt =====
-- `FileTrustStore` of crates/kvm-net/src/tls.rs. The file is its text, or `none` where it is missing or
-- not readable; what a write leaves of it is a parameter, since its failure is ignored. The order in
-- which the map is written is that of the list.
pub mod Saved
pub mod Pinned
use self_kvm.Common.{
  ℕ, List, [], ◌∷◌, ◌++◌, Option, none, some, Bool, true, false, ◌&&◌, ◌==◌, if◌then◌else◌,
}
use self_kvm.Common.Map.{Map, lookup, insert}
use self_kvm.Proto.Utf8.{Text}
use self_kvm.Core.FileName.{is_whitespace}
use mathlib.Core.Option
use self_kvm.Net.Trust.{Pins, Verdict, check, fingerprint}

abbrev pub is_nil : Text → Bool
is_nil [] = true
is_nil (c ∷ s) = false

-- `str::trim`
unfoldable pub trim_start : Text → Text
trim_start [] = []
trim_start (c ∷ s) = if is_whitespace c then trim_start s else c ∷ s

unfoldable pub trim_end : Text → Text
trim_end [] = []
trim_end (c ∷ s) = let r = trim_end s in if is_whitespace c && is_nil r then [] else c ∷ r

abbrev pub trim : Text → Text
trim s = trim_end (trim_start s)

-- `split_once(char::is_whitespace)`
unfoldable pub split_once : Text → Option (Text × Text)
split_once [] = none
split_once (c ∷ s) =
    if is_whitespace c then some ([], s) else Option.map (λ p. (c ∷ p.0, p.1)) (split_once s)

-- `str::lines`: the pieces before each line feed, without the carriage return at their end, and what
-- is left behind the last one if there is anything.
unfoldable pub strip_return : Text → Text
strip_return [] = []
strip_return (c ∷ s) = if c == 0x0D && is_nil s then [] else c ∷ strip_return s

unfoldable pub lines_from : Text → Text → List Text
unfolding strip_return
lines_from cur [] = if is_nil cur then [] else cur ∷ []
lines_from cur (c ∷ s) =
    let rest = lines_from [] s in
    if c == 0x0A then strip_return cur ∷ rest else lines_from (cur ++ (c ∷ [])) s

abbrev pub lines : Text → List Text
lines = lines_from []

abbrev pub add_pair : Option (Text × Text) → Pins → Pins
add_pair none m = m
add_pair (some p) m = insert (trim p.0) (trim p.1) m

unfoldable pub load_lines : List Text → Pins → Pins
unfolding trim_start trim_end split_once
load_lines [] m = m
load_lines (line ∷ ls) m = load_lines ls (add_pair (split_once line) m)

abbrev pub Disk : Type 0
Disk = Option Text

pub record FileTrustStore : Type 0 where
  pub mem : Pins
  pub file : Disk

abbrev pub loaded : Disk → Pins
loaded none = []
loaded (some text) = load_lines (lines text) []

unfoldable pub load : Disk → FileTrustStore
unfolding load_lines lines_from
load file = record { mem = loaded file; file = file }

-- `{k} {v}\n` for each pair.
unfoldable pub body : Pins → Text
body [] = []
body ((k, v) ∷ m) = k ++ (0x20 ∷ v ++ (0x0A ∷ body m))

module _ (write : Text → Disk → Disk) where
  abbrev pub persist : Pins → Disk → Disk
  persist m file = write (body m) file

  -- Only a first sight writes the file.
  abbrev pub file_after : Option Text → Pins → Disk → Disk
  file_after none m file = persist m file
  file_after (some known) m file = file

  unfoldable pub file_check : FileTrustStore → Text → Text → FileTrustStore × Verdict
  unfolding check body
  file_check s identity got =
      let r = check s.mem identity got in
      (record { mem = r.0; file = file_after (lookup identity s.mem) r.0 s.file }, r.1)

  -- One TLS connection of a client: a store is loaded, and its verifier checks the certificate.
  unfoldable pub connect : (List ℕ → List ℕ) → Disk → Text → List ℕ → Disk × Verdict
  unfolding file_check load fingerprint
  connect sha256 file identity cert =
      let r = file_check (load file) identity (fingerprint sha256 cert) in (r.0.file, r.1)

  -- The file after a series of connections.
  unfoldable pub connects : (List ℕ → List ℕ) → Disk → List (Text × List ℕ) → Disk
  unfolding connect
  connects sha256 file [] = file
  connects sha256 file ((identity, cert) ∷ cs) =
      connects sha256 (connect sha256 file identity cert).0 cs
