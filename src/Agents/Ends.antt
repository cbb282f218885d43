-- ===== src/Agents/Ends.antt =====
-- agent/core.c: em_stop in one go, and in small steps with those of the threads that it ends.
use empower_enb_agent.Base.{◌≡◌, refl, ap, List, [], ◌∷◌, ◌++◌, arith}
use empower_enb_agent.Agent.{Agent, World, Host}
use empower_enb_agent.Sched.Consume.{dump_queues}
use empower_enb_agent.Sched.Loop.{stop_sched, sched_stop}
use empower_enb_agent.Net.Start.{net_stop}
use empower_enb_agent.Core.{Core}
use empower_enb_agent.Core.Library.{Library, core_release_agent}
use empower_enb_agent.Threads.{asleep, listening, finish, leave}
use empower_enb_agent.Threads.Together.{stop_network}
use empower_enb_agent.Agents.Course.{Course}
use empower_enb_agent.Agents.{
  listed, leaving, sched_moves, net_moves, halts, halts_net, Member, Agents, with_members, among,
  act, vanish, nothing, acts_then,
}

-- An agent in the list whose threads are at the head of their loops.
abbrev pub resting : Agent → Member
resting a = record { agent = a; place = listed; sched = asleep; net = listening }

abbrev pub all_resting : List Agent → List Member
all_resting [] = []
all_resting (a ∷ rest) = resting a ∷ all_resting rest

abbrev pub resting_core : Core → Agents
resting_core c = record {
  members = all_resting c.agents;
  mem = c.mem;
  asked = c.asked;
  out = c.out;
}

module _ (h : Host) where
  -- The release of an agent whose threads are at the head of their loops.
  pub core_release_agent-Course :
      (before after : List Member) (w : World)
      → Course h
          (among before (record { world = w; sched = asleep; net = listening }) leaving after)
          (with_members (before ++ after) (core_release_agent h w))
          0
          1
  unfolding core_release_agent sched_stop net_stop dump_queues
  core_release_agent-Course before after w =
      let halted = acts_then nothing (act before after halts) in
      let joined = acts_then halted (act before after (sched_moves (finish refl))) in
      let halted_net = acts_then joined (act before after (halts_net refl)) in
      let joined_net = acts_then halted_net (act before after (net_moves (leave refl))) in
      record {
        acts =
            acts_then joined_net
              (vanish (stop_network (dump_queues h (stop_sched w))) before after);
        made_all = omega arith;
        freed_all = omega arith;
      }

  all_resting-append :
      (before after : List Agent)
      → all_resting (before ++ after) ≡ all_resting before ++ all_resting after
  all_resting-append [] after = refl
  all_resting-append (a ∷ rest) after = ap (λ l. resting a ∷ l) (all_resting-append rest after)
