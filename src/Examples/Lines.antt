-- ===== src/Examples/Lines.antt =====
-- A line that the agent 3 writes to the log.
use empower_enb_agent.Base.{◌≡◌, refl, some, [], arith}
use empower_enb_agent.Text.{codes, decimal}
use empower_enb_agent.Log.{log_line, proc_field, enb_field}
use empower_enb_agent.Log.Lines.{read_line, read_line-log_line}
use empower_enb_agent.Examples.Demo.{agent_with}

read_line-log_line_example :
    read_line (log_line (some (agent_with [] 1).agent) (codes "net_loop") (codes "Out.\n"))
    ≡ record { proc = codes "net_loop"; enb_id = 3; msg = codes "Out.\n" }
read_line-log_line_example =
    read_line-log_line (some (agent_with [] 1).agent) (codes "net_loop") (codes "Out.\n")
      (refl, (refl, (refl, (refl, (refl, (refl, (refl, (refl, tt)))))))) (omega arith)

line_text :
    log_line (some (agent_with [] 1).agent) (codes "net_loop") (codes "Out.\n")
    ≡ codes "net_loop                        , eNB 003: Out.\n"
unfolding log_line proc_field enb_field decimal
line_text = refl
