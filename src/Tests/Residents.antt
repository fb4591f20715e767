-- ===== src/Tests/Residents.antt =====
-- The proxy: what it claims, and when it gives the board up.
use runtt.Shared.{◌≡◌, ◌⊎◌, ◌↔◌, refl, Bool, true, false, [], ◌∷◌, Option, some, ok, err, ◌=ₗ◌}
use runtt.Shared.Text.{Text, codes, split_once}
use runtt.Target.{parse_target}
use runtt.Container.{join_path}
use runtt.Resolve.{Resolved, serial, System, no_tree, resolve, lock_key, set_log}
use runtt.Proxy.{Beat, stay_resident, lost, prepare, run_proxy, install_handlers, await_start}
use runtt.Proxy.Exits.{run_proxy-ok, Served}
use runtt.Proxy.Heartbeats.{TwoMisses, stay_resident_iff}

abbrev beat : Bool → Beat
beat answered = record { stop_before = false; stop_after = false; echoed = answered }

stay_resident_iff_example :
    (stay_resident 0 (beat false ∷ beat true ∷ beat false ∷ beat false ∷ []) ≡ some (err lost))
    ↔ TwoMisses (beat false ∷ beat true ∷ beat false ∷ beat false ∷ [])
stay_resident_iff_example =
    stay_resident_iff (beat false ∷ beat true ∷ beat false ∷ beat false ∷ [])

abbrev system : System
system = record { exists = λ p. true; has_network = λ n. false; udev = no_tree; ttys = some [] }

abbrev one_link : Text → Option Text
one_link p = some (codes "/dev/ttyACM0")

abbrev is_free : Text → Bool
is_free key = key =ₗ codes "/dev/ttyACM0"

abbrev board : Resolved
board = serial (codes "/dev/board") (some (codes "/dev/ttyS1"))

abbrev stopping : Beat
stopping = record { stop_before = false; stop_after = true; echoed = false }

stops :
    run_proxy
      (λ sig. true)
      system
      one_link
      is_free
      (λ r. ok tt)
      (0 ∷ 10 ∷ [])
      (codes "tty:board")
      (some (codes "tty:ttyS1"))
      (beat false ∷ beat true ∷ stopping ∷ [])
    ≡ some (ok tt)
unfolding run_proxy install_handlers await_start stay_resident prepare parse_target split_once
    resolve join_path lock_key set_log ◌=ₗ◌
stops = refl

run_proxy-ok_example :
    ((true ≡ true) × (true ≡ true) × (true ≡ true))
    × ((await_start (0 ∷ 10 ∷ []) ≡ some false)
        ⊎ Served
            (λ sig. true)
            system
            one_link
            is_free
            (λ r. ok tt)
            (0 ∷ 10 ∷ [])
            (codes "tty:board")
            (some (codes "tty:ttyS1"))
            (beat false ∷ beat true ∷ stopping ∷ []))
run_proxy-ok_example =
    run_proxy-ok (λ sig. true) system one_link is_free (λ r. ok tt) (0 ∷ 10 ∷ [])
      (codes "tty:board") (some (codes "tty:ttyS1")) (beat false ∷ beat true ∷ stopping ∷ []) stops
