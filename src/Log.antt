-- ===== src/Log.antt =====
-- agent/log.c: the log file, as whether it is open and what has been written to it. `log_message`
-- writes to it without a test: `fprintf` to a null pointer is undefined behaviour.
pub mod Lines
use empower_enb_agent.Base.{
  ℕ, ◌-◌, Bool, false, Option, none, some, List, [], ◌++◌, length, if◌then◌else◌,
}
use empower_enb_agent.Text.{codes, repeat, decimal}
use empower_enb_agent.Agent.{Agent}

-- `log_fd`, as whether it is not null, and the file.
pub record Log : Type 0 where
  pub log_fd : Bool
  pub text : List ℕ

-- The argument is whether `fopen` succeeds, which empties the file.
unfoldable pub log_init : Bool → Log → Log
log_init opens l =
    if opens then record { log_fd = opens; text = [] } else record l { log_fd = opens }

unfoldable pub log_release : Log → Log
log_release l = record l { log_fd = false }

-- `%-32s`, with EMLOG_PROC_LEN.
unfoldable pub proc_field : List ℕ → List ℕ
proc_field proc = proc ++ repeat (32 - length proc) b' '

-- `%03lu`
unfoldable pub enb_field : ℕ → List ℕ
enb_field enb_id = let ds = decimal enb_id in repeat (3 - length ds) b'0' ++ ds

-- `agent ? agent->enb_id : 0`
abbrev pub id_of : Option Agent → ℕ
id_of none = 0
id_of (some a) = a.enb_id

-- The text that is written: `msg` is what `vfprintf` makes of the format and its arguments.
unfoldable pub log_line : Option Agent → List ℕ → List ℕ → List ℕ
unfolding proc_field enb_field
log_line agent proc msg =
    proc_field proc ++ (codes ", eNB " ++ (enb_field (id_of agent) ++ (codes ": " ++ msg)))

-- The log, and whether the call is defined.
unfoldable pub log_message : Log → Option Agent → List ℕ → List ℕ → Log × Bool
unfolding log_line
log_message l agent proc msg =
    (if l.log_fd then record l { text = l.text ++ log_line agent proc msg } else l, l.log_fd)
