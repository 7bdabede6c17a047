-- ===== src/Tests/Inputs.antt =====
-- A simulated input at a concrete store.
use soft_plc.Base.{◌≡◌, refl, true, none, some, [], ◌∷◌, ok, str_eq}
use soft_plc.Base.Assoc.{lookup}
use soft_plc.Tags.Value.{Value, Address-eq, addr_eq}
use soft_plc.Tags.Store.{declare, find_address, read}
use soft_plc.Io.Simulated.{SimulatedIoDriver, read_inputs}
use soft_plc.Io.Simulated.Inputs.{read_inputs-read}
use soft_plc.Tests.Tags.{one_tag, two_tags, two_tags-IsValid, coil_address}

abbrev driver : SimulatedIoDriver
driver = record { simulated_inputs = (coil_address, Value.bool true) ∷ []; last_outputs = [] }

coil_found : find_address coil_address two_tags ≡ some 1
unfolding find_address two_tags one_tag declare str_eq addr_eq
coil_found = refl

read_inputs-read_example :
    ((v : Value)
      → lookup coil_address driver.simulated_inputs ≡ some v
      → read 1 (read_inputs driver two_tags).1 ≡ ok v)
    × (lookup coil_address driver.simulated_inputs ≡ none
        → read 1 (read_inputs driver two_tags).1 ≡ read 1 two_tags)
read_inputs-read_example =
    read_inputs-read driver coil_address 1 two_tags two_tags-IsValid (refl, tt) coil_found
