-- ===== src/Proxy/Exits.antt =====
-- With what the proxy exits: a restart policy fires on every exit code but 0.
use runtt.Shared.{
  ℕ, ◌+◌, ◌≡◌, ◌⊎◌, refl, arith, Bool, true, false, List, [], ◌∷◌, Option, none, some,
}
use runtt.Shared.{Result, ok, err, leb, Bool-cases, inl, inr}
use runtt.Shared.Text.{Text}
use runtt.Container.{sigint, sigterm, sigusr1}
use runtt.Resolve.{Resolved, System, lock_key}
use runtt.Proxy.{
  ProxyError, Beat, install_handlers, await_start, stay_resident, prepare, handled, awaited, begun,
  resident, run_proxy,
}
use runtt.Proxy.Claims.{prepare_claims}

-- Some look at the stop flag finds it set.
abbrev pub IsAsked : List Beat → Type 0
IsAsked [] = ⊥
IsAsked (b ∷ bs) = (b.stop_before ≡ true) ⊎ (b.stop_after ≡ true) ⊎ IsAsked bs

stay_resident-IsAsked :
    (failures : ℕ) (beats : List Beat) → stay_resident failures beats ≡ some (ok tt) → IsAsked beats
unfolding stay_resident
stay_resident-IsAsked failures [] e = cc
stay_resident-IsAsked failures (b ∷ bs) e = elim (Bool-cases b.stop_before) [
  | inl stop ↦ inl stop
  | inr on ↦ elim (Bool-cases b.stop_after) [
    | inl stop ↦ inr (inl stop)
    | inr on_too ↦ elim (Bool-cases b.echoed) [
      | inl well ↦ inr (inr (stay_resident-IsAsked 0 bs (rw (on, on_too, well) at e)))
      | inr missed ↦ elim (Bool-cases (leb 2 (failures + 1))) [
        | inl enough ↦ cc (rw (on, on_too, missed, enough) at e)
        | inr first ↦
            inr
              (inr (stay_resident-IsAsked (failures + 1) bs (rw (on, on_too, missed, first) at e)))
      ]
    ]
  ]
]

install_handlers-ok :
    (install : ℕ → Bool)
    → install_handlers install ≡ ok tt
    → (install sigusr1 ≡ true) × (install sigterm ≡ true) × (install sigint ≡ true)
unfolding install_handlers
install_handlers-ok install e = (ground arith, ground arith, ground arith)

module _ (install : ℕ → Bool) (sys : System) (canonicalize : Text → Option Text)
    (claim : Text → Bool) (deploy : Resolved → Result ProxyError (Unit {0})) (signals : List ℕ)
    (target : Text) (log_target : Option Text) (beats : List Beat) where
  -- A run that has come to the deploy, got through it, and was then asked to stop.
  pub record Served : Type 0 where
    pub begun_by : await_start signals ≡ some true
    pub board : Resolved
    pub prepared : prepare sys canonicalize claim target log_target ≡ ok board
    pub mine : claim (lock_key canonicalize board) ≡ true
    pub deployed : deploy board ≡ ok tt
    pub asked : IsAsked beats

  begun-Served :
      (x : Result ProxyError Resolved)
      → await_start signals ≡ some true
      → prepare sys canonicalize claim target log_target ≡ x
      → begun deploy beats x ≡ some (ok tt)
      → Served
  begun-Served (err e) s p h = cc
  begun-Served (ok r) s p h = deployed_to (deploy r) refl h
    where
      deployed_to :
          (y : Result ProxyError (Unit {0}))
          → deploy r ≡ y
          → resident y beats ≡ some (ok tt)
          → Served
      deployed_to (err e) d k = cc
      deployed_to (ok _) d k = record {
        begun_by = s;
        board = r;
        prepared = p;
        mine = prepare_claims sys canonicalize claim target log_target r p;
        deployed = d;
        asked = stay_resident-IsAsked 0 beats k;
      }

  -- The proxy exits with 0 only where its three handlers are in place, and either it was told to end before it
  -- was told to begin, or it was told to begin, has resolved and claimed its board, has deployed to it, and
  -- has then been asked to stop.
  pub run_proxy-ok :
      run_proxy install sys canonicalize claim deploy signals target log_target beats ≡ some (ok tt)
      → ((install sigusr1 ≡ true) × (install sigterm ≡ true) × (install sigint ≡ true))
        × ((await_start signals ≡ some false) ⊎ Served)
  unfolding run_proxy
  run_proxy-ok e = installed (install_handlers install) refl e
    where
      started :
          (o : Option Bool)
          → await_start signals ≡ o
          → awaited o (begun deploy beats (prepare sys canonicalize claim target log_target))
            ≡ some (ok tt)
          → (await_start signals ≡ some false) ⊎ Served
      started none s h = cc
      started (some false) s h = inl s
      started (some true) s h = inr (begun-Served _ s refl h)

      installed :
          (i : Result ProxyError (Unit {0}))
          → install_handlers install ≡ i
          → handled i (
              awaited
                (await_start signals)
                (begun deploy beats (prepare sys canonicalize claim target log_target)))
            ≡ some (ok tt)
          → ((install sigusr1 ≡ true) × (install sigterm ≡ true) × (install sigint ≡ true))
            × ((await_start signals ≡ some false) ⊎ Served)
      installed (err x) i h = cc
      installed (ok _) i h = (install_handlers-ok install i, started (await_start signals) refl h)
