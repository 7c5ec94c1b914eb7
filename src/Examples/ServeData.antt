-- ===== src/Examples/ServeData.antt =====
-- A session of the transport, and a request of its client.
use harnessing.Prelude.{false, none, [], ◌∷◌, str_eq}
use harnessing.Engine.Steps.{new_engine}
use harnessing.Host.{registering, FrontendSession, CommandInput}
use harnessing.Host.Opening.{Workspace}
use harnessing.Journal.{empty_journal, JournalIo}
use harnessing.Mailbox.Tree.{regular}
use harnessing.Transport.Files.{json}
use harnessing.Transport.Session.{Call, performing, CallInput}
use harnessing.Transport.Serving.{SessionDir, Pass}
use harnessing.Examples.Data.{io, at, registration, started, stopped, no_faults}
use harnessing.Examples.WireData.{Json, empty, asking_with, commanding}

abbrev pub input : CommandInput
input = record { io = io; ambient = at 1 "v1"; start_input = started; stop_input = stopped }

abbrev pub journal_io : JournalIo
journal_io = record {
  cancelled = false;
  open_read = false;
  read_error = none;
  open_write = false;
  write = false;
  sync = false;
  close = false;
  read_status = false;
  partial = none;
}

abbrev pub call_input : CallInput
call_input = record {
  command = input;
  read = no_faults;
  journal = journal_io;
  width = λ l. 1;
  received = 1;
}

abbrev pub session : FrontendSession
session = record { reviewers = λ agent. str_eq agent "carol"; principal = "alice" }

abbrev pub workspace : Workspace
workspace = record { engine = new_engine "w"; journals = λ id. empty_journal }

abbrev pub folder : SessionDir Json
folder = record { intake = []; responses = [] }

abbrev pub registers : Call
registers = performing (registering registration)

abbrev pub request : Json
request = asking_with "RegisterAgent" (commanding (registering registration))

-- The host's directory with that request, one that cannot be read, and one that was answered.
abbrev pub busy_pass : Pass Json
busy_pass = record {
  dir = record {
    intake =
        (json "r1", regular request)
        ∷ (json "r2", regular empty)
        ∷ (json "r0", regular request)
        ∷ [];
    responses = (json "r0", regular empty) ∷ [];
  };
  workspace = workspace;
}
