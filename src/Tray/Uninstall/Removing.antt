-- ===== src/Tray/Uninstall/Removing.antt =====
-- The deferred uninstallation as a whole: crates/tray/src/bin/tray.rs.
use konstantin.Common.{
  ℕ, String, ◌≤◌, ◌≡◌, ◌⊎◌, inl, inr, refl, sym, ◌∙◌, Bool, true, false, Option, none, some, List,
  arith, nat_eq, string_eq, length,
}
use konstantin.Common.Outcome.{Result, ok, err}
use konstantin.Common.Outcome as O
use mathlib.Core.Path.{subst}
use konstantin.Common.Polling.{Spaced}
use konstantin.Proto.Admin.{AdminResponse}
use konstantin.Tray.Services.{UnregisterHandles, unregister_handles}
use konstantin.Tray.Uninstall.{
  Helper, pause_millis, wait_for_bundle_removal, after_wait, watching, once_ready, prepared,
  bundle_of, preparation, deferred_uninstall_services,
}
use konstantin.Tray.Uninstall.Waiting.{
  Gone, Gone-wait_for_bundle_removal, Ends-wait_for_bundle_removal,
}

-- Every wait looks often enough, a pause apart, for its deadline to come.
abbrev pub Patient : {W : Type 0} → Helper W → Type 0
Patient helper =
    (root : String) (w : _)
    → Spaced pause_millis (helper.watch root w).0.0 (helper.watch root w).0.1
      × (481 ≤ length (helper.watch root w).0.1)

-- What the system has registered does not change by itself, nor by the helper's file.
pub record Registry {W R : Type 0} (helper : Helper W) (registered : W → R) : Type 0 where
  pub keeps_write : (w : W) → registered (helper.write_ready w).1 ≡ registered w
  pub keeps_remove : (w : W) → registered (helper.remove_ready w) ≡ registered w
  pub keeps_watch : (root : String) (w : W) → registered (helper.watch root w).1 ≡ registered w

abbrev Prepared : Type 0
Prepared = String × (ℕ × UnregisterHandles)

kept_root :
    (root found : String) (inode : Result ℕ) (handles : Result UnregisterHandles)
    (rest : ℕ × UnregisterHandles)
    → O.◌>>=◌ {B = Prepared} inode (λ i. O.◌>>=◌ handles λ hs. ok (found, (i, hs)))
      ≡ ok (root, rest)
    → found ≡ root
kept_root root found (ok i) (ok hs) rest h = ground (arith, h)
kept_root root found (ok i) (err e) rest h = absurd (ground (arith, h))
kept_root root found (err e) handles rest h = absurd (ground (arith, h))

module _ {W : Type 0} (helper : Helper W) (show : AdminResponse → String) where
  root_of :
      (r : Result (Option String)) (w : W) (root : String) (rest : ℕ × UnregisterHandles)
      → (O.◌>>=◌ {B = Prepared} r λ found. O.◌>>=◌ (bundle_of found) λ root.
          O.◌>>=◌ (helper.metadata root w) λ inode.
            O.◌>>=◌ (unregister_handles helper.services w) λ handles. ok (root, (inode, handles)))
        ≡ ok (root, rest)
      → r ≡ ok (some root)
  root_of (ok none) w root rest h = absurd (ground (arith, h))
  root_of (ok (some found)) w root rest h =
      let same =
        kept_root root found (helper.metadata found w) (unregister_handles helper.services w) rest
          h in
      rw same
  root_of (err e) w root rest h = absurd (ground (arith, h))

  -- A root that is prepared for is the one that the program runs from.
  bundle_root-preparation :
      (w : W) (root : String) (rest : ℕ × UnregisterHandles)
      → preparation helper show w ≡ ok (root, rest)
      → helper.bundle_root w ≡ ok (some root)
  unfolding preparation
  bundle_root-preparation w = root_of (helper.bundle_root w) w

  Returns : Option (Result (Unit {0}) × W) → Type 0
  Returns o = (q : Result (Unit {0}) × W) × (o ≡ some q)

  Returns-after_wait :
      (handles : UnregisterHandles) (w : W) (r : Result Bool)
      → Returns (after_wait helper show handles w (some r))
  unfolding Returns
  Returns-after_wait handles w (err e) = (_, refl)
  Returns-after_wait handles w (ok false) = (_, refl)
  Returns-after_wait handles w (ok true) = (_, refl)

  Returns-watching :
      (handles : UnregisterHandles) (inode : ℕ) (q : (ℕ × List (ℕ × Result ℕ)) × W)
      → Spaced pause_millis q.0.0 q.0.1
      → 481 ≤ length q.0.1
      → Returns (watching helper show handles inode q)
  Returns-watching handles inode ((start, rounds), w) spaced enough =
      let end = Ends-wait_for_bundle_removal inode start rounds spaced enough in
      subst (λ o. Returns (after_wait helper show handles w o)) (sym end.1)
        (Returns-after_wait handles w end.0)

  Returns-once_ready :
      Patient helper
      → (root : String) (inode : ℕ) (handles : UnregisterHandles) (q : Result (Unit {0}) × W)
      → Returns (once_ready helper show root inode handles q)
  unfolding Returns
  Returns-once_ready patient root inode handles (ok _, w) =
      Returns-watching handles inode (helper.watch root w) (patient root w).0 (patient root w).1
  Returns-once_ready patient root inode handles (err e, w) = (_, refl)

  Returns-prepared :
      Patient helper
      → (r : Result (String × (ℕ × UnregisterHandles))) (w : W) → Returns (prepared helper show r w)
  unfolding Returns
  Returns-prepared patient (ok (root, (inode, handles))) w =
      Returns-once_ready patient root inode handles (helper.write_ready w)
  Returns-prepared patient (err e) w = (_, refl)

  -- If a wait looks at the bundle as long as its deadline lets it, which takes at most 481 rounds a
  -- pause apart, the helper always finishes, whatever the file system, the daemon and the services
  -- answer.
  pub deferred_uninstall_services-returns :
      Patient helper
      → (w : W) → (q : Result (Unit {0}) × W) × (deferred_uninstall_services helper show w ≡ some q)
  unfolding deferred_uninstall_services Returns
  deferred_uninstall_services-returns patient w =
      Returns-prepared patient (preparation helper show w) w

  module _ {R : Type 0} (registered : W → R) (registry : Registry helper registered) where
    -- The registrations are as they were, or the wait saw the bundle gone.
    Spared : Type 0 → W → Option (Result (Unit {0}) × W) → Type 0
    Spared gone w none = Unit {0}
    Spared gone w (some (r, w')) = (registered w' ≡ registered w) ⊎ gone

    Spared-after_wait :
        (gone : Type 0) (handles : UnregisterHandles) (w w' : W) (o : Option (Result Bool))
        → registered w' ≡ registered w
        → (o ≡ some (ok true) → gone)
        → Spared gone w (after_wait helper show handles w' o)
    unfolding Spared
    Spared-after_wait gone handles w w' none e g = tt
    Spared-after_wait gone handles w w' (some (err x)) e g = inl e
    Spared-after_wait gone handles w w' (some (ok false)) e g = inl (registry.keeps_remove w' ∙ e)
    Spared-after_wait gone handles w w' (some (ok true)) e g = inr (g refl)

    Spared-watching :
        (handles : UnregisterHandles) (inode : ℕ) (w : W) (q : (ℕ × List (ℕ × Result ℕ)) × W)
        → registered q.1 ≡ registered w
        → Spared (Gone q.0.1) w (watching helper show handles inode q)
    Spared-watching handles inode w ((start, rounds), w') e =
        Spared-after_wait (Gone rounds) handles w w' (wait_for_bundle_removal inode start rounds) e
          (Gone-wait_for_bundle_removal inode start rounds)

    -- In a run from the world given, the wait saw the bundle that the program runs from missing for
    -- twenty seconds.
    abbrev pub GoneFromHere : W → Type 0
    GoneFromHere w =
        (root : String) × (helper.bundle_root w ≡ ok (some root))
        × Gone (helper.watch root (helper.write_ready w).1).0.1

    weaken :
        (gone wider : Type 0) (w : W) (o : Option (Result (Unit {0}) × W))
        → (gone → wider)
        → Spared gone w o
        → Spared wider w o
    unfolding Spared
    weaken gone wider w none f h = tt
    weaken gone wider w (some (r, w')) f (inl e) = inl e
    weaken gone wider w (some (r, w')) f (inr g) = inr (f g)

    Spared-once_ready :
        (root : String) (inode : ℕ) (handles : UnregisterHandles) (w : W)
        (q : Result (Unit {0}) × W)
        → registered q.1 ≡ registered w
        → Spared (Gone (helper.watch root q.1).0.1) w (once_ready helper show root inode handles q)
    unfolding Spared
    Spared-once_ready root inode handles w (ok _, w') e =
        Spared-watching handles inode w (helper.watch root w') (registry.keeps_watch root w' ∙ e)
    Spared-once_ready root inode handles w (err x, w') e = inl e

    Spared-prepared :
        (r : Result (String × (ℕ × UnregisterHandles))) (w : W)
        → preparation helper show w ≡ r
        → Spared (GoneFromHere w) w (prepared helper show r w)
    unfolding Spared
    Spared-prepared (ok (root, (inode, handles))) w h =
        weaken _ (GoneFromHere w) w _ (λ g. (root, bundle_root-preparation w root _ h, g))
          (Spared-once_ready root inode handles w (helper.write_ready w) (registry.keeps_write w))
    Spared-prepared (err e) w h = inl refl

    -- In a system that changes no registration by itself, the services stay registered as they were,
    -- however the helper ends, unless the program runs from a bundle and the wait saw this bundle's
    -- path missing for twenty seconds: not when the bundle is replaced by an upgrade, when the wait
    -- fails or times out, or when something is missing before the wait.
    pub registered-deferred_uninstall_services :
        (w : W) (q : Result (Unit {0}) × W)
        → deferred_uninstall_services helper show w ≡ some q
        → (registered q.1 ≡ registered w) ⊎ GoneFromHere w
    unfolding deferred_uninstall_services Spared
    registered-deferred_uninstall_services w q h =
        subst (Spared (GoneFromHere w) w) h (Spared-prepared (preparation helper show w) w refl)
