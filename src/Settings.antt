-- ===== src/Settings.antt =====
-- settings/Settings.cpp: the table of settings. `locked` is whether the lock is got; a value is a row of
-- characters, a key its number; `atoi` is the C library's, an argument.
use vpn_service_android.Common.{
  ℕ, ◌≡◌, refl, List, [], ◌∷◌, Option, none, some, Bool, true, false, ◌==◌, if◌then◌else◌, arith,
}

abbrev pub Table : Type 0
Table = List (ℕ × List ℕ)

unfoldable pub write : ℕ → List ℕ → Table → Table
write key value [] = (key, value) ∷ []
write key value ((k, v) ∷ t) =
    let rest = write key value t in if k == key then (k, value) ∷ t else (k, v) ∷ rest

unfoldable pub find : ℕ → Table → Option (List ℕ)
find key [] = none
find key ((k, v) ∷ t) = if k == key then some v else find key t

-- Whether it succeeds, and the table.
unfoldable pub set_setting : Bool → ℕ → List ℕ → Table → Bool × Table
unfolding write
set_setting locked key value t = if locked then (true, write key value t) else (false, t)

unfoldable pub found_or : Option (List ℕ) → Option (List ℕ) → Option (List ℕ)
found_or none default = default
found_or (some v) default = some v

-- `default` may be NULL.
unfoldable pub get_s_setting : Bool → ℕ → Option (List ℕ) → Table → Option (List ℕ)
unfolding found_or find
get_s_setting locked key default t = if locked then found_or (find key t) default else default

unfoldable pub number_or : (List ℕ → ℕ) → Option (List ℕ) → ℕ → ℕ
number_or atoi none default = default
number_or atoi (some v) default = atoi v

unfoldable pub get_i_setting : (List ℕ → ℕ) → Bool → ℕ → ℕ → Table → ℕ
unfolding number_or get_s_setting
get_i_setting atoi locked key default t = number_or atoi (get_s_setting locked key none t) default

find-write :
    (key j : ℕ) (value : List ℕ) (t : Table)
    → find j (write key value t) ≡ (if key == j then some value else find j t)
unfolding find write
find-write key j value [] = refl
find-write key j value ((k, v) ∷ t) = ground (arith, find-write key j value t)

-- With the lock got each time, a value that was set is read back as text and as a number, and what is
-- read under any other key is what was read before.
pub get_s_setting-set_setting :
    (atoi : List ℕ → ℕ) (key j : ℕ) (value : List ℕ) (default : ℕ) (t : Table)
    → let after = (set_setting true key value t).1 in
      (get_i_setting atoi true j default after
        ≡ (if key == j then atoi value else get_i_setting atoi true j default t))
      × (get_s_setting true j none after
          ≡ (if key == j then some value else get_s_setting true j none t))
unfolding set_setting get_s_setting get_i_setting number_or found_or
get_s_setting-set_setting atoi key j value default t =
    (ground (arith, find-write key j value t), ground (arith, find-write key j value t))
