-- ===== src/Serial/Handles.antt =====
-- The handles on ports that a connection leaves open: the port has to be free for the next one.
use runtt.Shared.{ℕ, ◌≡◌, ◌⊎◌, inl, inr, Bool, true, false, List, [], ◌∷◌, Option, none, some}
use runtt.Shared.{Result, ok, err}
use runtt.Shared.Stateful.{call, Triple, Triple->>=, Keeps-call, Triple-on_error, Triple-call}
use runtt.Shared.Text.{Text}
use runtt.Toolkit.{baud, smp_timeout}
use runtt.Serial.{
  Serialport, SerialError, SerialChannel, open_channel, clone_channel, set_channel_timeout,
  not_opened, still_exclusive, not_cloned, timeout_not_set,
}
use runtt.Serial.Link.{
  Link, LogDemux, plain, demuxed, poll, with_sink, drop_link, new_client, with_channel,
  connect_serial,
}

-- What is known of the `serialport` crate: `Open w q` says that the handle `q` is open. Opening and cloning
-- open one handle when they succeed, and a handle that is closed is no longer open; other calls, those
-- of the client among them, open none.
pub record Ports {W : Type 0} (sp : Serialport W)
    (client_timeout : Link → ℕ → W → Option (Unit {0}) × W) (Open : W → ℕ → Type 0) : Type 0 where
  pub opens :
      (path : Text) (b t p q : ℕ) (w w' : W)
      → sp.open_native path b t w ≡ (some p, w')
      → Open w' q
      → Open w q ⊎ (q ≡ p)
  pub opens_none :
      (path : Text) (b t q : ℕ) (w w' : W)
      → sp.open_native path b t w ≡ (none, w')
      → Open w' q
      → Open w q
  pub clones :
      (o p q : ℕ) (w w' : W) → sp.try_clone o w ≡ (some p, w') → Open w' q → Open w q ⊎ (q ≡ p)
  pub clones_none : (o q : ℕ) (w w' : W) → sp.try_clone o w ≡ (none, w') → Open w' q → Open w q
  pub exclusive : (p q : ℕ) (b : Bool) (w : W) → Open (sp.set_exclusive p b w).1 q → Open w q
  pub timed : (p t q : ℕ) (w : W) → Open (sp.set_timeout p t w).1 q → Open w q
  pub client : (link : Link) (t q : ℕ) (w : W) → Open (client_timeout link t w).1 q → Open w q
  pub closes : (p q : ℕ) (w : W) → Open (sp.close p w) q → Open w q × (q ≡ p → ⊥)

abbrev pub Among : ℕ → List ℕ → Type 0
Among q [] = ⊥
Among q (p ∷ ps) = (q ≡ p) ⊎ Among q ps

module _ {W : Type 0} (sp : Serialport W) (client_timeout : Link → ℕ → W → Option (Unit {0}) × W)
    (Open : W → ℕ → Type 0) (l : Ports sp client_timeout Open) (w₀ : W) where
  -- Every handle that is open was open in `w₀`, or is one of these.
  abbrev pub Only : List ℕ → W → Type 0
  Only hs w = (q : ℕ) → Open w q → Open w₀ q ⊎ Among q hs

  added :
      (hs : List ℕ) (p q : ℕ) {A : Type 0}
      → (A → Open w₀ q ⊎ Among q hs)
      → A ⊎ (q ≡ p)
      → Open w₀ q ⊎ Among q (p ∷ hs)
  added hs p q f (inr is) = inr (inl is)
  added hs p q {A} f (inl a) = later (f a)
    where
      later : Open w₀ q ⊎ Among q hs → Open w₀ q ⊎ Among q (p ∷ hs)
      later (inl old) = inl old
      later (inr among) = inr (inr among)

  closed : (p : ℕ) (hs : List ℕ) (w : W) → Only (p ∷ hs) w → Only hs (sp.close p w)
  closed p hs w o q is = go (o q (l.closes p q w is).0)
    where
      go : Open w₀ q ⊎ Among q (p ∷ hs) → Open w₀ q ⊎ Among q hs
      go (inl old) = inl old
      go (inr (inl same)) = absurd ((l.closes p q w is).1 same)
      go (inr (inr among)) = inr among

  swapped : (p p' : ℕ) (w : W) → Only (p ∷ p' ∷ []) w → Only (p' ∷ p ∷ []) w
  swapped p p' w o q is = go (o q is)
    where
      go : Open w₀ q ⊎ Among q (p ∷ p' ∷ []) → Open w₀ q ⊎ Among q (p' ∷ p ∷ [])
      go (inl old) = inl old
      go (inr (inl e)) = inr (inr (inl e))
      go (inr (inr (inl e))) = inr (inl e)
      go (inr (inr (inr e))) = elim e [ ]

  abbrev Channel : List ℕ → Result SerialError SerialChannel → W → Type 0
  Channel hs (ok ch) w = Only (ch.port ∷ hs) w
  Channel hs (err e) w = Only hs w

  open_channel-Channel :
      (path : Text) (b t : ℕ) → Triple (Only []) (open_channel sp path b t) (Channel [])
  unfolding open_channel
  open_channel-Channel path b t =
      Triple->>= (Channel []) (call (sp.open_native path b t) not_opened) _ Port
        (Triple-call Port (sp.open_native path b t) not_opened
          (λ w w' p o e q is. added [] p q (o q) (l.opens path b t p q w w' e is))
          (λ w w' o e q is. o q (l.opens_none path b t q w w' e is)))
        (λ port.
          Triple-on_error (Channel []) (sp.close port) _ (Kept port)
            (Triple->>= (Kept port) (call (sp.set_exclusive port false) still_exclusive) _
              (λ _ w. Only (port ∷ []) w)
              (Keeps-call (Only (port ∷ [])) _ _ (λ w o q is. o q (l.exclusive port q false w is)))
              (λ _ w o. o) (λ e w o. o))
            (λ ch w o. o) (λ e w o. closed port [] w o))
        (λ e w o. o)
    where
      Port : Result SerialError ℕ → W → Type 0
      Port (ok p) w = Only (p ∷ []) w
      Port (err e) w = Only [] w

      Kept : ℕ → Result SerialError SerialChannel → W → Type 0
      Kept port (ok ch) w = Only (ch.port ∷ []) w
      Kept port (err e) w = Only (port ∷ []) w

  abbrev Cloned : SerialChannel → Result SerialError SerialChannel → W → Type 0
  Cloned ch (ok writer) w = Only (writer.port ∷ ch.port ∷ []) w
  Cloned ch (err e) w = Only (ch.port ∷ []) w

  clone_channel-Cloned :
      (ch : SerialChannel) → Triple (Only (ch.port ∷ [])) (clone_channel sp ch) (Cloned ch)
  unfolding clone_channel
  clone_channel-Cloned ch =
      Triple->>= (Cloned ch) (call (sp.try_clone ch.port) not_cloned) _ Port
        (Triple-call Port (sp.try_clone ch.port) not_cloned
          (λ w w' p o e q is. added (ch.port ∷ []) p q (o q) (l.clones ch.port p q w w' e is))
          (λ w w' o e q is. o q (l.clones_none ch.port q w w' e is)))
        (λ port w o. o) (λ e w o. o)
    where
      Port : Result SerialError ℕ → W → Type 0
      Port (ok p) w = Only (p ∷ ch.port ∷ []) w
      Port (err e) w = Only (ch.port ∷ []) w

  -- The handles that a link is made of.
  abbrev pub handles : Link → List ℕ
  handles (plain ch) = ch.port ∷ []
  handles (demuxed d) = d.writer.port ∷ d.reader.port ∷ []

  abbrev Demuxed : Result SerialError LogDemux → W → Type 0
  Demuxed (ok d) w = Only (handles (demuxed d)) w
  Demuxed (err e) w = Only [] w

  with_sink-Demuxed :
      (ch : SerialChannel) (t : ℕ) → Triple (Only (ch.port ∷ [])) (with_sink sp ch t) Demuxed
  unfolding with_sink
  with_sink-Demuxed ch t =
      Triple->>= Demuxed _ _ Second
        (Triple-on_error Second (sp.close ch.port) (clone_channel sp ch) (Cloned ch)
          (clone_channel-Cloned ch) (λ writer w o. o) (λ e w o. closed ch.port [] w o))
        (λ writer.
          let hs = writer.port ∷ ch.port ∷ [] in
          Triple-on_error Demuxed (λ w. sp.close ch.port (sp.close writer.port w)) _ (Both writer)
            (Triple->>= (Both writer) (set_channel_timeout sp ch poll) _ (λ _ w. Only hs w)
              (Keeps-call (Only hs) _ _ (λ w o q is. o q (l.timed ch.port poll q w is)))
              (λ _ w o. o) (λ e w o. o))
            (λ d w o. o) (λ e w o. closed ch.port [] _ (closed writer.port (ch.port ∷ []) w o)))
        (λ e w o. o)
    where
      Second : Result SerialError SerialChannel → W → Type 0
      Second (ok writer) w = Only (writer.port ∷ ch.port ∷ []) w
      Second (err e) w = Only [] w

      Both : SerialChannel → Result SerialError LogDemux → W → Type 0
      Both writer (ok d) w = Only (handles (demuxed d)) w
      Both writer (err e) w = Only (writer.port ∷ ch.port ∷ []) w

  dropped : (link : Link) (w : W) → Only (handles link) w → Only [] (drop_link sp link w)
  dropped (plain ch) w o = closed ch.port [] w o
  dropped (demuxed d) w o =
      closed d.writer.port [] _
        (closed d.reader.port (d.writer.port ∷ []) w (swapped d.writer.port d.reader.port w o))

  abbrev Linked : Result SerialError Link → W → Type 0
  Linked (ok link) w = Only (handles link) w
  Linked (err e) w = Only [] w

  new_client-Linked :
      (link : Link) (t : ℕ)
      → Triple (Only (handles link)) (new_client sp client_timeout link t) Linked
  unfolding new_client
  new_client-Linked link t =
      Triple-on_error Linked (drop_link sp link) _ Made
        (Triple->>= Made (call (client_timeout link t) timeout_not_set) _
          (λ _ w. Only (handles link) w)
          (Keeps-call (Only (handles link)) _ _ (λ w o q is. o q (l.client link t q w is)))
          (λ _ w o. o) (λ e w o. o))
        (λ made w o. o) (λ e w o. dropped link w o)
    where
      Made : Result SerialError Link → W → Type 0
      Made (ok made) w = Only (handles made) w
      Made (err e) w = Only (handles link) w

  with_channel-Linked :
      (demux_logs : Bool) (ch : SerialChannel)
      → Triple (Only (ch.port ∷ [])) (with_channel sp client_timeout demux_logs ch) Linked
  with_channel-Linked true ch =
      Triple->>= Linked (with_sink sp ch smp_timeout) _ Demuxed (with_sink-Demuxed ch smp_timeout)
        (λ d. new_client-Linked (demuxed d) smp_timeout) (λ e w o. o)
  with_channel-Linked false ch = new_client-Linked (plain ch) smp_timeout

  connect_serial-Linked :
      (path : Text) (demux_logs : Bool)
      → Triple (Only []) (connect_serial sp client_timeout path demux_logs) Linked
  unfolding connect_serial
  connect_serial-Linked path demux_logs =
      Triple->>= Linked (open_channel sp path baud smp_timeout) _ (Channel [])
        (open_channel-Channel path baud smp_timeout) (with_channel-Linked demux_logs) (λ e w o. o)

  -- Nothing is open that was not open in `w₀`.
  abbrev pub IsFree : W → Type 0
  IsFree w = (q : ℕ) → Open w q → Open w₀ q

  abbrev pub Freed : Result SerialError Link → W → Type 0
  Freed (ok link) w = Only (handles link) w × IsFree (drop_link sp link w)
  Freed (err e) w = IsFree w

  none_left : (w : W) → Only [] w → IsFree w
  none_left w o q is = go (o q is)
    where
      go : Open w₀ q ⊎ ⊥ → Open w₀ q
      go (inl old) = old
      go (inr e) = elim e [ ]

  -- Connecting to a serial board, with the log on the same link or not, and wherever it fails: a failure
  -- leaves no handle on a port open; on success only the handles of the link are open, one or two, and
  -- none is left when the link is dropped.
  pub connect_serial-Freed :
      (path : Text) (demux_logs : Bool)
      → Freed
          (connect_serial sp client_timeout path demux_logs w₀).0
          (connect_serial sp client_timeout path demux_logs w₀).1
  connect_serial-Freed path demux_logs =
      go (connect_serial sp client_timeout path demux_logs w₀)
        (connect_serial-Linked path demux_logs w₀ (λ q is. inl is))
    where
      go : (r : Result SerialError Link × W) → Linked r.0 r.1 → Freed r.0 r.1
      go (ok link, w) o = (o, none_left _ (dropped link w o))
      go (err e, w) o = none_left w o
