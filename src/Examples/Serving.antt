-- ===== src/Examples/Serving.antt =====
-- The serve process around a session of the transport.
use harnessing.Prelude.{String, Bool, false, none, some, [], ◌∷◌, refl, inl, str_eq}
use harnessing.Domain.Errors.{ok}
use harnessing.Store.{absent}
use harnessing.Store.Effects.{Holds}
use harnessing.Engine.Consistency.{IsConsistent}
use harnessing.Host.Opening.{OpenInput, new_process, open_workspace}
use harnessing.Transport.Ticking.{SessionTurn}
use harnessing.Transport.Written.{clean_read, clean_write}
use harnessing.Transport.Pending.{turns}
use harnessing.Assembly.{MailPass, serve_tick}
use harnessing.Assembly.System.{
  Process, at_start, next, ticked, reopened, engine_of, serving-IsConsistent,
}
use harnessing.Examples.Data.{io, at, no_faults}
use harnessing.Examples.MailData.{Content, wire, turn}
use harnessing.Examples.WireCodec.{codec}
use harnessing.Examples.WireData.{Json, empty}
use harnessing.Examples.ServeData.{journal_io, call_input, session, workspace, busy_pass}

-- The serve process: a tick with that session, and a restart.
abbrev session_turn : SessionTurn Json
session_turn = record {
  read_attach = clean_read;
  write_attach = clean_write "tmp" empty;
  list = false;
  turns = turns codec "tmp" empty (λ id. call_input) session;
}

abbrev mail_pass : MailPass Content
mail_pass = record {
  abs = false;
  mkdir = false;
  deliver_read = no_faults;
  deliver_turns = λ i. turn;
  ingest_read = no_faults;
  ingest_turns = λ i j. turn;
  visit = λ names. names;
  snapshot_read = no_faults;
  ack_turns = λ i j. turn;
}

abbrev opening : OpenInput
opening = record {
  open_store = ok tt;
  make_journal = false;
  reconcile_read = no_faults;
  reconcile = λ id. record { recovered = none; outcome_id = ok "m9"; io = io; ambient = at 9 "v9" };
  snapshot_read = no_faults;
  finish_io = λ id. journal_io;
}

abbrev reviewers : String → Bool
reviewers agent = str_eq agent "carol"

abbrev process : Process Content Json
process = record {
  serving = record {
    sessions = ("s1", busy_pass.dir) ∷ [];
    bound = λ id. some session;
    workspace = workspace;
  };
  mail = record { agents = []; files = [] };
}

abbrev ticked_process : Process Content Json
ticked_process =
    let r =
      serve_tick wire reviewers codec false (λ id. session_turn) mail_pass process.serving
        process.mail in
    record { serving = r.1; mail = r.2 }

abbrev reopened_process : Process Content Json
reopened_process = record ticked_process {
  serving = record {
    sessions = ticked_process.serving.sessions;
    bound = λ id. none;
    workspace =
        (open_workspace opening (record ticked_process.serving.workspace {
          engine =
              new_process (engine_of ticked_process).store.files.state_file absent
                (engine_of ticked_process);
        })).1;
  };
}

serving-IsConsistent_example :
    Holds IsConsistent (engine_of reopened_process).store.files.state_file
    × Holds IsConsistent (engine_of reopened_process).store.files.synced
serving-IsConsistent_example =
    serving-IsConsistent wire reviewers codec "w" process reopened_process refl (
      next (next at_start (ticked false (λ id. session_turn) mail_pass refl))
        (reopened (engine_of ticked_process).store.files.state_file absent opening (inl refl) refl))
