-- ===== src/Tests/Simulators.antt =====
-- The interface for simulators at concrete samples.
use trdb.Base.{refl, [], some, arith, Returns}
use trdb.Trace.{zero_packet}
use trdb.Simulator.{Simulator, Sample, trdb_sv_feed_trace}
use trdb.Simulator.Passed.{IsPassed, trdb_sv_feed_trace-IsPassed}
use trdb.Tests.{full_ctx}
use trdb.Tests.Traces.{full_ctx-IsReady}

abbrev a_simulator : Simulator
a_simulator = record { ctx = full_ctx; packets = []; packetcnt = 0 }

-- An addition that traps, with 'x as its interrupt.
abbrev a_sample : Sample
a_sample = record {
  ivalid = 1;
  iexception = 1;
  interrupt = 3;
  cause = 2;
  tval = 0;
  priv = 3;
  iaddr = 0x1c000080;
  instr = 0x00a50533;
  compressed = 0;
}

trdb_sv_feed_trace-IsPassed_example :
    Returns
      (IsPassed a_simulator 128)
      (trdb_sv_feed_trace a_simulator a_sample 128 (some zero_packet))
trdb_sv_feed_trace-IsPassed_example =
    trdb_sv_feed_trace-IsPassed a_simulator (omega arith) 128 (omega arith) a_sample
      (some zero_packet) refl refl full_ctx-IsReady
