-- ===== src/Container/Host.antt =====
-- What the verbs ask of the operating system and of the OCI library, over a state `W` of the host. An
-- answer of `none` is a failed call.
use runtt.Shared.{ℕ, Bool, List, Option, Result, ok, err, none, some}
use runtt.Shared.Stateful.{Keeps}
use runtt.Shared.Text.{Text}
use runtt.Shared.Text.Numbers.{I32}
use runtt.Container.{State, VerbError}

-- The fields of the OCI spec that `create` uses.
pub record Spec : Type 0 where
  pub annotations : List (Text × Text)
  pub args : List Text
  pub root : Option Text

pub data Flock : Type 0 where
  locked would_block failed : Flock

pub record Host (W : Type 0) : Type 0 where
  pub read_spec : Text → W → Option Spec
  pub exists : Text → W → Bool
  pub load : Text → W → Option State
  pub create_dir_all : Text → W → Option (Unit {0}) × W
  pub write : Text → State → W → Option (Unit {0}) × W
  pub rename : Text → Text → W → Option (Unit {0}) × W
  pub remove_file : Text → W → W
  pub remove_dir_all : Text → W → Option (Unit {0}) × W
  pub write_pid : Text → I32 → W → Option (Unit {0}) × W
  pub open_lock : Text → W → Option ℕ × W
  pub flock : ℕ → W → Flock × W
  pub get_fd : ℕ → W → Option ℕ
  pub set_fd : ℕ → ℕ → W → Option (Unit {0}) × W
  pub current_exe : W → Option Text
  pub env : Text → W → Option Text
  pub exec : Text → List Text → List (Text × Text) → W → Option I32 × W
  pub kill : I32 → ℕ → W → Option (Unit {0}) × W
  pub probe : I32 → W → Bool
  pub sleep : W → W

-- A question that changes nothing, a result that is known, and `ok_or`.
abbrev pub asked : {W A : Type 0} → Option A → VerbError → W → Result VerbError A × W
asked none e w = (err e, w)
asked (some a) e w = (ok a, w)

abbrev pub ask : {W A : Type 0} → (W → Option A) → VerbError → W → Result VerbError A × W
ask f e w = asked (f w) e w

abbrev pub known : {W A : Type 0} → Result VerbError A → W → Result VerbError A × W
known r w = (r, w)

abbrev pub ok_or : {A : Type 0} → Option A → VerbError → Result VerbError A
ok_or none e = err e
ok_or (some a) e = ok a

-- A question changes nothing.
pub Keeps-ask :
    {W A : Type 0} (I : W → Type 0) (f : W → Option A) (e : VerbError) → Keeps I (ask f e)
Keeps-ask {A} I f e w h = go (f w)
  where
    go : (o : Option A) → I (asked o e w).1
    go none = h
    go (some a) = h
