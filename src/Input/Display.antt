-- ===== src/Input/Display.antt =====
-- `primary_display_size` of crates/kvm-input/src/lib.rs, on what the display library lists.
use self_kvm.Common.{ℕ, List, [], ◌∷◌, Option, none, some, Bool, true, false}
use self_kvm.Common.Int.{ℤ, u32_as_i32}
use self_kvm.Core.Layout.{screen_size}
use self_kvm.Core.Layout.Crossings.{IsScreen}

pub record DisplayInfo : Type 0 where
  pub width : ℕ
  pub height : ℕ
  pub is_primary : Bool

-- The size of the display, if one is found.
abbrev pub Display : Type 0
Display = Option (ℤ × ℤ)

-- A display that is found has pixels.
abbrev pub IsDisplay : Display → Type 0
IsDisplay none = Unit {0}
IsDisplay (some d) = IsScreen (screen_size d.0 d.1)

abbrev pub find_primary : List DisplayInfo → Option DisplayInfo
find_primary [] = none
find_primary (d ∷ ds) = elim d.is_primary [ true ↦ some d | false ↦ find_primary ds ]

abbrev pub or_first : Option DisplayInfo → List DisplayInfo → Option DisplayInfo
or_first (some d) ds = some d
or_first none [] = none
or_first none (d ∷ ds) = some d

abbrev pub size_of_chosen : Option DisplayInfo → Display
size_of_chosen none = none
size_of_chosen (some d) = some (u32_as_i32 d.width, u32_as_i32 d.height)

-- Nothing is listed where the library fails.
unfoldable pub primary_display_size : Option (List DisplayInfo) → Display
primary_display_size none = none
primary_display_size (some ds) = size_of_chosen (or_first (find_primary ds) ds)
