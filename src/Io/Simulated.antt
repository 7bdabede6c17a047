-- ===== src/Io/Simulated.antt =====
-- The simulated driver (io/simulated_io_driver.hpp, simulated_io_driver.cpp). std::map is in the order of its
-- keys; the association list is in the order of the first writes, and the inputs of different addresses are
-- different tags, so the order of the loop does not matter.
pub mod Inputs
use soft_plc.Base.{Option, none, some, ok, List, [], ◌∷◌}
use soft_plc.Base.Assoc.{lookup, insert}
use soft_plc.Tags.Value.{Value, Address, Address-eq, Tag, output}
use soft_plc.Tags.Store.{TagStore, find_address, write, for_each_in_area}
use soft_plc.St.Exec.{Exec, ◌>>◌}

pub record SimulatedIoDriver : Type 0 where
  pub simulated_inputs : List (Address × Value)
  pub last_outputs : List (Address × Value)

-- The loop of readInputs.
unfoldable pub push_inputs : List (Address × Value) → Exec (Unit {0})
push_inputs [] s = (ok tt, s)
push_inputs ((a, v) ∷ m) s = elim (find_address a s) [
  | none ↦ push_inputs m s
  | some id ↦ (write id v >> push_inputs m) s
]

unfoldable pub read_inputs : SimulatedIoDriver → Exec (Unit {0})
read_inputs d = push_inputs d.simulated_inputs

-- The callback of writeOutputs: a tag that it gets has an address.
abbrev pub record_output : Tag → List (Address × Value) → List (Address × Value)
record_output t m = elim t.address [ none ↦ m | some a ↦ insert a t.value m ]

unfoldable pub write_outputs : TagStore → SimulatedIoDriver → SimulatedIoDriver
write_outputs s d = record d {
  last_outputs = for_each_in_area output record_output s.tags d.last_outputs;
}

unfoldable pub set_simulated_input : Address → Value → SimulatedIoDriver → SimulatedIoDriver
set_simulated_input a v d = record d { simulated_inputs = insert a v d.simulated_inputs }

unfoldable pub last_output : Address → SimulatedIoDriver → Option Value
last_output a d = lookup a d.last_outputs
