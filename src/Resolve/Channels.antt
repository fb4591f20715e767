-- ===== src/Resolve/Channels.antt =====
-- The channels of a serial board that the resolution picks, and what holds of each device it picks from.
use runtt.Shared.{◌≡◌, refl, subst, Bool-cases, Option-cases, inl, inr}
use runtt.Shared.{List, [], ◌∷◌, Option, none, some, ok, All, find, is_some_of_iff}
use runtt.Shared.Text.{Text, codes}
use runtt.Resolve.{
  Candidate, Entry, Resolved, serial, has_interface, iface_mgmt, iface_log, channels_among, pick,
  dev_of, take_entry, walk_entries, serial_of, is_some_of, ends_with,
}
use runtt.Resolve.Identity.{All-find}
use runtt.Resolve.Sysfs.{}

-- A serial board with its channels as `P` says.
pub record Channels (P : Text → Type 0) (r : Resolved) : Type 0 where
  pub mgmt : Text
  pub log : Option Text
  pub is : r ≡ serial mgmt log
  pub mgmt_holds : P mgmt
  pub log_holds : (l : Text) → log ≡ some l → P l

some_inj : (a b : Text) → some a ≡ some b → a ≡ b
some_inj a b e = cc

module _ (P : Text → Type 0) where
  found_holds :
      (cs : List Candidate) (name : Text)
      → All (λ (c : Candidate). P c.dev) cs
      → (l : Text) → dev_of (find (has_interface name) cs) ≡ some l
      → P l
  found_holds cs name h l e = elim (Option-cases (find (has_interface name) cs)) [
    | inl absent ↦ cc (rw absent at e)
    | inr (c, found) ↦
        let is : c.dev ≡ l = cc (rw found at e) in
        subst P is (All-find (λ (c : Candidate). P c.dev) _ cs c h found)
  ]

  pub channels_among-Channels :
      (cs : List Candidate) (r : Resolved)
      → All (λ (c : Candidate). P c.dev) cs
      → channels_among cs ≡ ok r
      → Channels P r
  channels_among-Channels cs r h e =
      picked (dev_of (find (has_interface iface_mgmt) cs))
        (dev_of (find (has_interface iface_log) cs)) cs (found_holds cs iface_mgmt h)
        (found_holds cs iface_log h) h e
    where
      picked :
          (m log : Option Text) (xs : List Candidate)
          → ((l : Text) → m ≡ some l → P l)
          → ((l : Text) → log ≡ some l → P l)
          → All (λ (c : Candidate). P c.dev) xs
          → pick m log xs ≡ ok r
          → Channels P r
      picked (some m) log xs hm hl hx z = record {
        mgmt = m;
        log = log;
        is = cc;
        mgmt_holds = hm m refl;
        log_holds = hl;
      }
      picked none log [] hm hl hx z = cc
      picked none log (c ∷ []) hm hl (hc, _) z = record {
        mgmt = c.dev;
        log = none;
        is = cc;
        mgmt_holds = hc;
        log_holds = λ l z. cc;
      }
      picked none log (c ∷ d ∷ xs) hm hl hx z = cc

  -- The channels that a walk of the udev tree has found.
  pub record Holds (found : Option Text × Option Text) : Type 0 where
    pub mgmt : (l : Text) → found.0 ≡ some l → P l
    pub log : (l : Text) → found.1 ≡ some l → P l

  take_entry-Holds :
      (path : Text) (e : Entry) (found : Option Text × Option Text)
      → (e.port ≡ some path → P e.target)
      → Holds found
      → Holds (take_entry path e found)
  take_entry-Holds path e (m, l) on h = elim (Bool-cases (is_some_of e.port path)) [
    | inr other ↦ rw other h
    | inl hit ↦
        let here = on ((is_some_of_iff e.port path).0 hit) in
        elim (Bool-cases (ends_with (codes "-mgmt") e.name)) [
          | inl is_mgmt ↦
              rw (hit, is_mgmt)
                (record { mgmt = λ x z. subst P (some_inj e.target x z) here; log = h.log })
          | inr not_mgmt ↦ elim (Bool-cases (ends_with (codes "-log") e.name)) [
            | inl is_log ↦
                rw (hit, not_mgmt, is_log)
                  (record { mgmt = h.mgmt; log = λ x z. subst P (some_inj e.target x z) here })
            | inr neither ↦ rw (hit, not_mgmt, neither) h
          ]
        ]
  ]

  pub walk_entries-Holds :
      (path : Text) (es : List Entry) (found : Option Text × Option Text)
      → All (λ (e : Entry). e.port ≡ some path → P e.target) es
      → Holds found
      → Holds (walk_entries path es found)
  unfolding walk_entries
  walk_entries-Holds path [] found on h = h
  walk_entries-Holds path (e ∷ es) found (here, on) h =
      walk_entries-Holds path es (take_entry path e found) on (take_entry-Holds path e found here h)

  pub serial_of-Channels :
      (found : Option Text × Option Text) (r : Resolved)
      → Holds found
      → serial_of found ≡ some r
      → Channels P r
  serial_of-Channels (none, l) r h e = cc
  serial_of-Channels (some m, l) r h e = record {
    mgmt = m;
    log = l;
    is = cc;
    mgmt_holds = h.mgmt m refl;
    log_holds = h.log;
  }
