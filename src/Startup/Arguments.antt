-- ===== src/Startup/Arguments.antt =====
-- The settings that a server starts with, and the server that a client is started with:
-- `parse_server_arguments` of src/server/server.c and `main` of src/client/client.c.
use inf01151_trabalho_final.Base.{
  ◌≤◌, ◌≡◌, refl, ap, sym, ◌∙◌, Bool, true, false, List, [], ◌∷◌, Bytes, codes, arith, length, take,
  take_all, length-take, ◌⊎◌, inl, inr, Bool-cases, subst, str_eq,
}
use inf01151_trabalho_final.Text.{ℤ, negsuc, atoi, print_int}
use inf01151_trabalho_final.Text.Decimal.{atoi-print_int}
use inf01151_trabalho_final.Startup.{
  Settings, Parsing, started, is_positive, with_manager, parse_manager, parse_mode, named_settings,
  parse_id, parse_server_arguments,
}

-- A manager has no manager of its own, and a backup has one.
abbrev pub HasMode : Settings → Type 0
HasMode s =
    ((s.manager ≡ true) × (s.manager_ip ≡ []) × (s.manager_port ≡ negsuc 0))
    ⊎ ((s.manager ≡ false) × (length s.manager_ip ≤ 255) × (is_positive s.manager_port ≡ true))

-- The settings with which a server can start; the addresses fit their 256 bytes.
pub record IsValid (s : Settings) : Type 0 where
  pub id : is_positive s.id ≡ true
  pub ip : length s.my_server_ip ≤ 255
  pub mode : HasMode s

-- The mode and what stands behind it.
abbrev pub mode_arguments : Bool → Bytes → ℤ → List Bytes
mode_arguments true manager_ip manager_port = codes "-M" ∷ []
mode_arguments false manager_ip manager_port = codes "-B" ∷ manager_ip ∷ print_int manager_port ∷ []

-- The arguments that ask for the settings.
abbrev pub arguments_of : Settings → List Bytes
arguments_of s =
    print_int s.id ∷ s.my_server_ip ∷ mode_arguments s.manager s.manager_ip s.manager_port

-- The settings are valid if the process goes on.
abbrev Sound : Parsing → Type 0
Sound (started s) = IsValid s
Sound _ = Unit

module _ (s : Settings) (id : is_positive s.id ≡ true) (ip : length s.my_server_ip ≤ 255) where
  with_manager-Sound : (manager_ip : Bytes) (port : ℤ) → Sound (with_manager manager_ip port s)
  unfolding with_manager
  with_manager-Sound manager_ip port = elim (Bool-cases (is_positive port)) [
    | inl ok ↦
        let fits : length (take 255 manager_ip) ≤ 255 = omega (arith, length-take 255 manager_ip) in
        rw (ok, with_manager) (record { id = id; ip = ip; mode = inr (refl, fits, ok) })
    | inr bad ↦ rw (bad, with_manager) tt
  ]

  parse_manager-Sound : (more : List Bytes) → Sound (parse_manager more s)
  unfolding parse_manager
  parse_manager-Sound [] = tt
  parse_manager-Sound (manager_ip ∷ []) = tt
  parse_manager-Sound (manager_ip ∷ port ∷ more) = with_manager-Sound manager_ip (atoi port)

  parse_mode-Sound : (mode : Bytes) (more : List Bytes) → HasMode s → Sound (parse_mode mode more s)
  unfolding parse_mode
  parse_mode-Sound mode more has = elim (Bool-cases (str_eq mode (codes "-M"))) [
    | inl manager ↦ rw (manager, parse_mode) (record { id = id; ip = ip; mode = has })
    | inr other ↦ elim (Bool-cases (str_eq mode (codes "-B"))) [
      | inl backup ↦ rw (other, parse_mode) (rw backup (parse_manager-Sound more))
      | inr unknown ↦ rw (other, parse_mode) (rw unknown tt)
    ]
  ]

parse_id-Sound : (id : ℤ) (ip mode : Bytes) (more : List Bytes) → Sound (parse_id id ip mode more)
unfolding parse_id
parse_id-Sound id ip mode more = elim (Bool-cases (is_positive id)) [
  | inl ok ↦
      rw (ok, parse_id)
        (parse_mode-Sound (named_settings id ip) ok (omega (arith, length-take 255 ip)) mode more
          (inl (refl, refl, refl)))
  | inr bad ↦ rw (bad, parse_id) tt
]

parse_server_arguments-Sound : (args : List Bytes) → Sound (parse_server_arguments args)
unfolding parse_server_arguments
parse_server_arguments-Sound [] = tt
parse_server_arguments-Sound (a ∷ []) = tt
parse_server_arguments-Sound (a ∷ b ∷ []) = tt
parse_server_arguments-Sound (a ∷ b ∷ c ∷ []) = tt
parse_server_arguments-Sound (program ∷ id ∷ ip ∷ mode ∷ more) =
    parse_id-Sound (atoi id) ip mode more

-- Whatever the arguments are, a server that does not exit goes on with a positive identifier, with
-- addresses that fit their buffers, and, as a backup, with a positive port of its manager.
pub settings-IsValid :
    (args : List Bytes) (s : Settings) → parse_server_arguments args ≡ started s → IsValid s
settings-IsValid args s e = subst Sound e (parse_server_arguments-Sound args)

-- The arguments up to the mode.
parse_id_lem :
    (program ip mode : Bytes) (id : ℤ) (more : List Bytes)
    → is_positive id ≡ true
    → length ip ≤ 255
    → parse_server_arguments (program ∷ print_int id ∷ ip ∷ mode ∷ more)
      ≡ parse_mode mode more (record (named_settings id ip) { my_server_ip = ip })
unfolding parse_server_arguments parse_id
parse_id_lem program ip mode id more ok fits =
    ap (λ n. parse_id n ip mode more) (atoi-print_int id)
    ∙ rw (ok, parse_id)
        (ap (λ a. parse_mode mode more (record (named_settings id ip) { my_server_ip = a }))
          (take_all 255 ip fits))

parse_manager_lem :
    (ip : Bytes) (port : ℤ) (s : Settings)
    → is_positive port ≡ true
    → length ip ≤ 255
    → parse_mode (codes "-B") (ip ∷ print_int port ∷ []) s
      ≡ started (record s { manager = false; manager_ip = ip; manager_port = port })
unfolding parse_mode parse_manager with_manager str_eq
parse_manager_lem ip port s ok fits =
    ap (λ n. with_manager ip n s) (atoi-print_int port)
    ∙ rw (ok, with_manager)
        (ap (λ a. started (record s { manager = false; manager_ip = a; manager_port = port }))
          (take_all 255 ip fits))

arguments_lem :
    (program ip manager_ip : Bytes) (id manager_port : ℤ) (manager : Bool)
    → (let s : Settings = record {
      id = id;
      my_server_ip = ip;
      manager = manager;
      manager_ip = manager_ip;
      manager_port = manager_port;
    } in
        is_positive id ≡ true
        → length ip ≤ 255
        → HasMode s
        → parse_server_arguments (program ∷ arguments_of s) ≡ started s)
unfolding parse_mode str_eq
arguments_lem program ip manager_ip id manager_port true ok fits (inl (m, none_ip, none_port)) =
    parse_id_lem program ip (codes "-M") id [] ok fits
    ∙ ap
        (λ (r : Bytes × ℤ). started (record (named_settings id ip) {
          my_server_ip = ip;
          manager_ip = r.0;
          manager_port = r.1;
        }))
        (ap (λ a. (a, negsuc 0)) (sym none_ip) ∙ ap (λ n. (manager_ip, n)) (sym none_port))
arguments_lem program ip manager_ip id manager_port true ok fits (inr (m, _, _)) = cc
arguments_lem program ip manager_ip id manager_port false ok fits (inl (m, _, _)) = cc
arguments_lem program ip manager_ip id manager_port false ok fits (inr (m, short, port)) =
    parse_id_lem program ip (codes "-B") id (manager_ip ∷ print_int manager_port ∷ []) ok fits
    ∙ parse_manager_lem manager_ip manager_port
        (record (named_settings id ip) { my_server_ip = ip }) port short

-- Every valid settings can be asked for: a server with the arguments that say them, behind any
-- program name, goes on with exactly these.
pub arguments_of_lem :
    (program : Bytes) (s : Settings)
    → IsValid s
    → parse_server_arguments (program ∷ arguments_of s) ≡ started s
arguments_of_lem program s v =
    arguments_lem program s.my_server_ip s.manager_ip s.id s.manager_port s.manager v.id v.ip v.mode
