-- ===== src/Tray/Client/Wired.antt =====
-- A status over the socket, from end to end: crates/tray/src/lib.rs, crates/proto/src/lib.rs and
-- crates/daemon/src/ipc.rs.
use konstantin.Common.{
  ℕ, String, ◌≡◌, refl, sym, ap, ◌∙◌, true, List, [], ◌∷◌, ◌++◌, nat_eq, string_eq,
}
use konstantin.Common.Outcome.{ok}
use konstantin.Proto.{Request, get_status, Response, status}
use konstantin.Proto.Frame.{FrameError, Json, Reader, Writer, read_frame, write_frame}
use konstantin.Proto.Frame as F
use konstantin.Proto.Frame.RoundTrip.{read_frame-write_frame}
use konstantin.Daemon.Config.{Config}
use konstantin.Daemon.Ipc.{Moment, compute_status, handle_connection}
use konstantin.Tray.Client.{fetch_status}

append-nil : (xs : List ℕ) → xs ++ [] ≡ xs
append-nil [] = refl
append-nil (x ∷ xs) = ap (λ rest. x ∷ rest) (append-nil xs)

-- The two ends of a connection over which nothing has been sent before.
module _ {R W T : Type 0} (reader : Reader R) (writer : Writer W) (codec : Json T) where
  read_frame-fresh :
      (value : T) (r : R) (w : W)
      → writer.sent w ≡ []
      → (write_frame writer codec value w).0 ≡ F.ok tt
      → reader.pending r ≡ writer.sent (write_frame writer codec value w).1
      → (read_frame reader codec r).0 ≡ F.ok value
  read_frame-fresh value r w fresh written arrived =
      let (bytes, sent, back) = read_frame-write_frame reader writer codec value w written in
      (back r [] (arrived ∙ sent ∙ ap (λ before. before ++ bytes) fresh ∙ sym (append-nil bytes))).0

module _ {Rd Wd Rc Wc : Type 0} (daemon_reader : Reader Rd) (daemon_writer : Writer Wd)
    (client_reader : Reader Rc) (client_writer : Writer Wc) (requests : Json Request)
    (responses : Json Response) (username : String) (uid : ℕ) (cfg : Config)
    (show : Response → String) (describe : FrameError → String) where
  -- Over a connection on which nothing was sent before, and where each write succeeds and arrives, the
  -- daemon reads the client's GetStatus off the wire and answers with the status of its user, and
  -- the client reads exactly this status off the wire: the one that the daemon computes of the
  -- counters at that moment.
  pub fetch_status-handle_connection :
      (m : Moment) (wc : Wc) (rd : Rd) (wd : Wd) (rc : Rc)
      → client_writer.sent wc ≡ []
      → (write_frame client_writer requests get_status wc).0 ≡ F.ok tt
      → daemon_reader.pending rd
        ≡ client_writer.sent (write_frame client_writer requests get_status wc).1
      → m.written ≡ true
      → let s = compute_status username uid cfg m.state m.next_midnight in
        daemon_writer.sent wd ≡ []
        → (write_frame daemon_writer responses (status s) wd).0 ≡ F.ok tt
        → client_reader.pending rc
          ≡ daemon_writer.sent (write_frame daemon_writer responses (status s) wd).1
        → ((handle_connection username uid cfg describe
              (((read_frame daemon_reader requests rd).0, m) ∷ [])
              []).0
            ≡ status s ∷ [])
          × (fetch_status show (ok tt) (ok tt) (read_frame client_reader responses rc).0 ≡ ok s)
  unfolding handle_connection fetch_status
  fetch_status-handle_connection m wc rd wd rc fresh asked arrived live fresh' told back =
      let request =
        read_frame-fresh daemon_reader client_writer requests get_status rd wc fresh asked
          arrived in
      let response =
        read_frame-fresh client_reader daemon_writer responses
          (status (compute_status username uid cfg m.state m.next_midnight)) rc wd fresh' told
          back in
      (rw (request, live) refl, rw response refl)
