-- ===== src/Uams/Registry.antt =====
-- lib/uams.c: the registry of authentication methods and the calls through it. Whether the library is
-- built with libgcrypt is an argument. A method's functions are numbers; what they do is an argument
-- of the calls.
use netatalk_client.Base.{
  ℕ, ◌≡◌, ℤ, negsuc, Bool, true, false, Option, none, some, List, [], ◌∷◌, ◌++◌, ◌==◌,
  if◌then◌else◌, codes, str_eq,
}
use netatalk_client.Uams.{uam_string_to_bitmap, resolve_uam_shorthand}

-- `struct afp_uam`
pub record Uam : Type 0 where
  pub bitmap : ℕ
  pub name : List ℕ
  pub do_server_login : ℕ
  pub do_server_passwd : Option ℕ

-- `true` where the method has no bit, and is left out.
unfoldable pub register_uam : Uam → Bool × List Uam → Bool × List Uam
register_uam uam (failed, uams) =
    let bitmap = uam_string_to_bitmap uam.name in
    if bitmap == 0 then (true, uams) else (failed, uams ++ (record uam { bitmap = bitmap } ∷ []))

unfoldable pub find_uam_by_bitmap : ℕ → List Uam → Option Uam
find_uam_by_bitmap i [] = none
find_uam_by_bitmap i (u ∷ us) = if u.bitmap == i then some u else find_uam_by_bitmap i us

unfoldable pub find_by_full_name : List ℕ → List Uam → ℕ
find_by_full_name name [] = 0
find_by_full_name name (u ∷ us) = if str_eq u.name name then u.bitmap else find_by_full_name name us

unfoldable pub find_uam_by_name : List ℕ → List Uam → ℕ
find_uam_by_name name uams = find_by_full_name (resolve_uam_shorthand name) uams

abbrev pub method : List ℕ → ℕ → Option ℕ → Uam
method name login passwd = record {
  bitmap = 0;
  name = name;
  do_server_login = login;
  do_server_passwd = passwd;
}

-- The functions of the methods, numbered: cleartxt, noauth, randnum, randnum2, dhx, dhx2, srp. The
-- two of randnum share theirs for passwords.
unfoldable pub init_uams : Bool → Bool × List Uam
init_uams have_libgcrypt =
    let plain =
      register_uam (method (codes "No User Authent") 1 none)
        (register_uam (method (codes "Cleartxt Passwrd") 0 (some 0)) (false, [])) in
    let all = register_uam (method (codes "SRP") 6 none) (
      register_uam (method (codes "DHX2") 5 (some 5)) (
        register_uam (method (codes "DHCAST128") 4 (some 4)) (
          register_uam (method (codes "2-Way Randnum Exchange") 3 (some 2))
            (register_uam (method (codes "Randnum Exchange") 2 (some 2)) plain)))) in
    if have_libgcrypt then all else plain

-- `kFPCallNotSupported`
abbrev pub call_not_supported : ℤ
call_not_supported = negsuc 5023

unfoldable pub afp_dologin : (ℕ → ℤ) → ℕ → List Uam → ℤ
afp_dologin login uam uams = elim (find_uam_by_bitmap uam uams) [
  | none ↦ negsuc 0
  | some u ↦ login u.do_server_login
]

unfoldable pub afp_dopasswd : (ℕ → ℤ) → ℕ → List Uam → ℤ
afp_dopasswd passwd uam uams = elim (find_uam_by_bitmap uam uams) [
  | none ↦ negsuc 0
  | some u ↦ elim u.do_server_passwd [ none ↦ call_not_supported | some f ↦ passwd f ]
]

-- A shorthand, the name that it stands for, the bit of the method and its login function.
abbrev pub Method : Type 0
Method = List ℕ × List ℕ × ℕ × ℕ

abbrev pub plain_methods : List Method
plain_methods =
    (codes "guest", codes "No User Authent", 1, 1)
    ∷ (codes "clrtxt", codes "Cleartxt Passwrd", 2, 0)
    ∷ []

abbrev pub all_methods : List Method
all_methods =
    (codes "guest", codes "No User Authent", 1, 1)
    ∷ (codes "clrtxt", codes "Cleartxt Passwrd", 2, 0)
    ∷ (codes "randnum", codes "Randnum Exchange", 4, 2)
    ∷ (codes "randnum2", codes "2-Way Randnum Exchange", 8, 3)
    ∷ (codes "dhx", codes "DHCAST128", 16, 4)
    ∷ (codes "dhx2", codes "DHX2", 64, 5)
    ∷ (codes "srp", codes "SRP", 256, 6)
    ∷ []

-- Both names of the method give its bit, and a login with the bit is one with its function.
abbrev pub IsRegistered : (ℕ → ℤ) → List Uam → Method → Type 0
IsRegistered login uams (shorthand, name, bit, f) =
    (find_uam_by_name shorthand uams ≡ bit)
    × (find_uam_by_name name uams ≡ bit)
    × (afp_dologin login bit uams ≡ login f)
