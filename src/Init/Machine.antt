-- ===== src/Init/Machine.antt =====
-- The machine that is provisioned: what the agent does to it, in order, and how each act turns out.
--
-- Each act takes the next entry of `answers`, and goes through when there is none left. A file's
-- content is changed by opening it to be written and by writing to its end; what a failed call has
-- written is left out.
use azure_init.Prelude.{ℕ, Option, none, some, List, [], ◌∷◌, ◌++◌, if◌then◌else◌, Bytes, bytes_eq}
use azure_init.Result.{Result, ok, err}
use azure_init.Init.Error.{Error, io, subprocess_failed}

-- A program that is run to its end; one that is started, fed and waited for; and calls on files,
-- with a mode, an owner or the bytes written.
pub data Action : Type 0 where
  run_program : Bytes → List Bytes → Action
  spawn : Bytes → Action
  feed : Bytes → Action
  wait : Bytes → Action
  create_dir : Bytes → ℕ → Action
  create_file : Bytes → Action
  open_truncate : Bytes → ℕ → Action
  open_existing : Bytes → Action
  open_emptied : Bytes → Action
  set_mode : Bytes → ℕ → Action
  chown : Bytes → ℕ → ℕ → Action
  write : Bytes → Bytes → Action
  read : Bytes → Action
  flush : Bytes → Action
  stat : Bytes → Action

-- Success, an exit status or an error of the call.
pub data Answer : Type 0 where
  success : Answer
  exit_status : Bytes → Answer
  io_error : Answer

pub record SshUser : Type 0 where
  pub home_dir : Bytes
  pub uid : ℕ
  pub gid : ℕ

abbrev pub Files : Type 0
Files = Bytes → Option Bytes

-- `lookup` finds a user after what was done; `sshd_output` is what `sshd -G` prints; `debug` is how a
-- command is printed.
pub record Machine : Type 0 where
  pub log : List Action
  pub answers : List Answer
  pub files : Files
  pub lookup : List Action → Bytes → Option SshUser
  pub sshd_output : Bytes
  pub debug : Bytes → List Bytes → Bytes

abbrev pub Sys : Type 0 → Type 0
Sys A = Machine → Result Error A × Machine

abbrev pub pure : {A : Type 0} → A → Sys A
pure a m = (ok a, m)

abbrev pub fail : {A : Type 0} → Error → Sys A
fail e m = (err e, m)

abbrev pub continue :
    {A B : Type 0} → Result Error A × Machine → (A → Sys B) → Result Error B × Machine
continue (ok a, m) f = f a m
continue (err e, m) f = (err e, m)

-- Shut, so that a proof sees the steps.
infixl 5 ◌>>=◌ ◌>>◌
unfoldable pub ◌>>=◌ : {A B : Type 0} → Sys A → (A → Sys B) → Sys B
◌>>=◌ s f m = continue (s m) f

abbrev pub ◌>>◌ : {B : Type 0} → Sys (Unit {0}) → Sys B → Sys B
s >> t = s >>= λ _. t

abbrev pub next_answer : List Answer → Answer × List Answer
next_answer [] = (success, [])
next_answer (a ∷ rest) = (a, rest)

-- The act is done, and answered.
unfoldable pub attempt : Action → Machine → Answer × Machine
attempt a m = (
  (next_answer m.answers).0,
  record m { log = m.log ++ a ∷ []; answers = (next_answer m.answers).1 },
)

abbrev pub text_of : Option Bytes → Bytes
text_of none = []
text_of (some text) = text

abbrev pub put : Bytes → Bytes → Files → Files
put path content files p = if bytes_eq p path then some content else files p

-- What an act that goes through does to the files.
abbrev pub change : Action → Files → Files
change (create_file path) files = put path [] files
change (open_truncate path mode) files = put path [] files
change (open_emptied path) files = put path [] files
change (write path content) files = put path (text_of (files path) ++ content) files
change _ files = files

abbrev pub answered : Action → Answer × Machine → Result Error (Unit {0}) × Machine
answered act (success, m) = (ok tt, record m { files = change act m.files })
answered act (exit_status s, m) = (err io, m)
answered act (io_error, m) = (err io, m)

-- A call on files, which fails with an I/O error.
unfoldable pub call : Action → Sys (Unit {0})
unfolding attempt
call act m = answered act (attempt act m)

abbrev pub checked : Bytes → Answer × Machine → Result Error (Unit {0}) × Machine
checked command (success, m) = (ok tt, m)
checked command (exit_status s, m) = (err (subprocess_failed command s), m)
checked command (io_error, m) = (err io, m)

-- `crate::run` (libazureinit/src/lib.rs).
unfoldable pub run : Bytes → List Bytes → Sys (Unit {0})
unfolding attempt
run program args m = checked (m.debug program args) (attempt (run_program program args) m)
