-- ===== src/Daemon/Publish.antt =====
-- How crates/kvm-daemon/src/file_transfer.rs gives a received file its name. The download directory is a
-- map from names to contents; creating, renaming and removing succeed where the directory lets them.
pub mod Safe
use self_kvm.Common.{
  ℕ, zero, suc, ◌+◌, ◌/◌, ◌%◌, List, [], ◌∷◌, ◌++◌, Bool, true, false, if◌then◌else◌, ltb, Result,
  ok, err, Option, none, some,
}
use self_kvm.Common.Map.{Name, Map, lookup, insert, remove, has}

abbrev pub Directory : Type 0
Directory = Map (List ℕ)

pub data DiskError : Type 0 where
  already_exists : DiskError
  not_found : DiskError

-- `create_new`: an empty file, where there is nothing yet.
unfoldable pub reserve : Directory → Name → Directory × Result DiskError (Unit {0})
reserve d path = if has path d then (d, err already_exists) else (insert path [] d, ok tt)

-- `rename` replaces what is at the new name.
abbrev pub rename_found :
    Directory → Name → Name → Option (List ℕ) → Directory × Result DiskError (Unit {0})
rename_found d from to (some bytes) = (insert to bytes (remove from d), ok tt)
rename_found d from to none = (d, err not_found)

unfoldable pub rename : Directory → Name → Name → Directory × Result DiskError (Unit {0})
rename d from to = rename_found d from to (lookup from d)

-- The decimal digits of a number before those of `acc`. A round divides by ten, so as many rounds as the
-- number says are enough.
abbrev pub digits : ℕ → ℕ → List ℕ → List ℕ
digits zero n acc = (b'0' + n % 10) ∷ acc
digits (suc fuel) n acc =
    let rest = digits fuel (n / 10) ((b'0' + n % 10) ∷ acc) in
    if ltb n 10 then (b'0' + n % 10) ∷ acc else rest

-- `format!("{token}-{name}")`
abbrev pub alternative : ℕ → Name → Name
alternative token name = digits token token [] ++ (b'-' ∷ name)

-- `format!(".incoming-{token}.part")`
abbrev pub incoming : ℕ → Name
incoming token =
    b'.'
    ∷ b'i'
    ∷ b'n'
    ∷ b'c'
    ∷ b'o'
    ∷ b'm'
    ∷ b'i'
    ∷ b'n'
    ∷ b'g'
    ∷ b'-'
    ∷ (digits token token [] ++ (b'.' ∷ b'p' ∷ b'a' ∷ b'r' ∷ b't' ∷ []))

-- The name at which a step ends, where it ends well.
abbrev pub named :
    Name → Directory × Result DiskError (Unit {0}) → Directory × Result DiskError Name
named path (d, ok u) = (d, ok path)
named path (d, err e) = (d, err e)

-- `reserve(path).await?; rename(tmp, path).await?`
abbrev pub moved :
    Name → Name → Directory × Result DiskError (Unit {0}) → Directory × Result DiskError Name
moved tmp path (d, ok u) = named path (rename d tmp path)
moved tmp path (d, err e) = (d, err e)

-- The fallback for a name that is taken.
abbrev pub settled :
    Name → Name → ℕ → Directory × Result DiskError (Unit {0}) → Directory × Result DiskError Name
settled tmp name token (d, ok u) = named name (rename d tmp name)
settled tmp name token (d, err already_exists) =
    let alt = alternative token name in moved tmp alt (reserve d alt)
settled tmp name token (d, err e) = (d, err e)

-- The directory afterwards, and the name of the file or the error.
unfoldable pub publish : Directory → Name → Name → ℕ → Directory × Result DiskError Name
unfolding reserve rename
publish d tmp name token = settled tmp name token (reserve d name)
