-- ===== src/Startup/Tests.antt =====
-- Tests of the start of the programs, and their theorems at concrete inputs.
use inf01151_trabalho_final.Base.{
  ◌≡◌, refl, true, false, some, [], ◌∷◌, codes, str_eq, replicate, arith, inr,
}
use inf01151_trabalho_final.Text.{
  pos, print_int, atoi, scan_int, scan_signed, scan_unsigned, scan_nat, skip_space, print_nat,
  digits,
}
use inf01151_trabalho_final.Transfer.{done, crash}
use inf01151_trabalho_final.Failover.{Client, Network, connected, endpoint, handle_connection}
use inf01151_trabalho_final.Startup.{
  Settings, started, no_manager, invalid_mode, is_positive, parse_manager, parse_mode, parse_id,
  parse_server_arguments, with_hostname, parse_client_arguments, server_ports,
}
use inf01151_trabalho_final.Startup.Arguments.{
  IsValid, arguments_of, settings-IsValid, arguments_of_lem,
}
use inf01151_trabalho_final.Startup.Meeting.{meeting_lem}

abbrev backup : Settings
backup = record {
  id = pos 2;
  my_server_ip = codes "10.0.0.2";
  manager = false;
  manager_ip = codes "10.0.0.1";
  manager_port = pos 4003;
}

backup-IsValid : IsValid backup
unfolding is_positive
backup-IsValid = record { id = refl; ip = omega arith; mode = inr (refl, omega arith, refl) }

backup_arguments :
    arguments_of backup
    ≡ codes "2" ∷ codes "10.0.0.2" ∷ codes "-B" ∷ codes "10.0.0.1" ∷ codes "4003" ∷ []
unfolding print_int print_nat digits
backup_arguments = refl

arguments_of_lem_example :
    parse_server_arguments (codes "./server" ∷ arguments_of backup) ≡ started backup
arguments_of_lem_example = arguments_of_lem (codes "./server") backup backup-IsValid

settings-IsValid_example : IsValid backup
settings-IsValid_example =
    settings-IsValid (codes "./server" ∷ arguments_of backup) backup
      (arguments_of_lem (codes "./server") backup backup-IsValid)

-- A mode that is neither `-M` nor `-B`, and a backup without a manager.
bad_mode :
    parse_server_arguments (codes "./server" ∷ codes "1" ∷ codes "h" ∷ codes "M" ∷ [])
    ≡ invalid_mode
unfolding parse_server_arguments parse_id atoi scan_int scan_signed scan_unsigned scan_nat
    skip_space is_positive parse_mode str_eq
bad_mode = refl

lone_backup :
    parse_server_arguments (codes "./server" ∷ codes "1" ∷ codes "h" ∷ codes "-B" ∷ codes "h" ∷ [])
    ≡ no_manager
unfolding parse_server_arguments parse_id atoi scan_int scan_signed scan_unsigned scan_nat
    skip_space is_positive parse_mode str_eq parse_manager
lone_backup = refl

-- A host name of 20 characters is written past `hostname`.
long_hostname_crashes :
    parse_client_arguments (codes "./client" ∷ codes "ana" ∷ replicate 20 b'h' ∷ []) ≡ crash
unfolding parse_client_arguments with_hostname
long_hostname_crashes = refl

abbrev network : Network
network = record { resolve = λ h. some 167772161; accepts = λ a. true }

meeting_lem_example :
    (k : Client) × (parse_client_arguments
        (codes "./client" ∷ codes "ana" ∷ codes "10.0.0.1" ∷ print_int (pos 4000) ∷ [])
      ≡ done (some k))
    × (k.username ≡ codes "ana")
    × ((handle_connection network k).0
        ≡ connected
            (endpoint 167772161 (server_ports 4000).interface)
            (endpoint 167772161 (server_ports 4000).receive)
            (endpoint 167772161 (server_ports 4000).send))
meeting_lem_example =
    meeting_lem (codes "./client") (codes "ana") (codes "10.0.0.1") 4000 167772161 [] network
      (omega arith) (omega arith) refl refl refl refl
