-- ===== src/Daemon/Service/Recovery.antt =====
-- A daemon that starts again: `main` of crates/daemon/src/main.rs after a round of `run_ticker`.
use konstantin.Common.{
  ℕ, String, ◌≡◌, refl, ◌∙◌, Option, some, [], if◌then◌else◌, ◌==◌, nat_eq, string_eq,
}
use konstantin.Common.Outcome.{Failure, Result, ok, err}
use konstantin.Common.Files.{Files, FileLaws, Paths}
use konstantin.Daemon.Config.{Config}
use konstantin.Daemon.Sessions.{console_users}
use konstantin.Daemon.State.{State, StateCodec, used, load, save_atomic}
use konstantin.Daemon.State.Saving.{OldOrNew, save_atomic_all_or_nothing, load-save_atomic}
use konstantin.Daemon.Enforcement.{System}
use konstantin.Daemon.Service.{Shared, Ticker, startup, ticker_section, ticker_round}
use konstantin.Daemon.Service.Accounting.{carried, used-reset, day-reset, day-ticker}

carried-stored :
    (s : State) (user : String) (today later : ℕ)
    → s.day ≡ some today
    → carried (record s { active_now = [] }) user later
      ≡ (if today == later then used s user else 0)
unfolding used
carried-stored s user today later h = rw h refl

module _ {Fs W : Type 0} {files : Files Fs} (laws : FileLaws files) (paths : Paths)
    (codec : StateCodec) (cfg : Config) (sys : System W) where
  load-kept :
      (s : State) (old : String) (fs : Fs) (r : Result (Unit {0}) × Fs) (f : Failure)
      → files.read_to_string fs cfg.state_path ≡ ok old
      → r.0 ≡ err f
      → OldOrNew laws paths codec cfg.state_path old s r
      → load files paths codec r.1 cfg.state_path ≡ load files paths codec fs cfg.state_path
  unfolding load
  load-kept s old fs (ok _, w) f there e kept = cc
  load-kept s old fs (err g, w) f there e kept = rw (kept, there)

  state-startup :
      (name : Option String) (today : ℕ) (fs : Fs) (user : String)
      → let s = (startup files paths codec cfg name today fs).state in
        (s.day ≡ some today)
        × (used s user ≡ carried (load files paths codec fs cfg.state_path) user today)
        × (s.active_now ≡ console_users name)
  unfolding startup used
  state-startup name today fs user =
      let s = load files paths codec fs cfg.state_path in
      (day-reset today s, used-reset today s user, refl)

  -- Let the state file be readable before a round of the ticker. If the save of the round succeeds, a
  -- daemon that then starts has the counters of the round, or, on another day, only zeros; if the
  -- save fails, it has the state it would have had before the round.
  pub startup-ticker_round :
      (old user : String) (name again : Option String) (today later : ℕ) (sh : Shared Fs)
      (t : Ticker W)
      → files.read_to_string sh.fs cfg.state_path ≡ ok old
      → let after = (ticker_round files paths codec cfg sys name today (sh, t)).0 in
        let saved = (save_atomic files paths codec after.state cfg.state_path sh.fs).0 in
        let restarted = (startup files paths codec cfg again later after.fs).state in
        (saved ≡ ok tt
          → (restarted.day ≡ some later)
            × (used restarted user ≡ (if today == later then used after.state user else 0)))
        × ((f : Failure)
            → saved ≡ err f
            → restarted ≡ (startup files paths codec cfg again later sh.fs).state)
  unfolding ticker_round startup
  startup-ticker_round old user name again today later sh t there = (
    (λ saved.
        let st = state-startup again later fs' user in
        (
          st.0,
          st.1
              ∙ (rw (load-save_atomic laws paths codec s' cfg.state_path old sh.fs there saved)
                  (carried-stored s' user today later (day-ticker cfg name today sh.state))),
        )),
    λ f failed.
        rw
          (load-kept s' old sh.fs (save_atomic files paths codec s' cfg.state_path sh.fs) f there
            failed (save_atomic_all_or_nothing laws paths codec s' cfg.state_path old sh.fs there))
          refl,
  )
    where
      s' : State
      s' = ticker_section cfg name today sh.state

      fs' : Fs
      fs' = (save_atomic files paths codec s' cfg.state_path sh.fs).1
