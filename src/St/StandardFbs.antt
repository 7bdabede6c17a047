-- ===== src/St/StandardFbs.antt =====
-- The standard timers and counters, in Structured Text (include/softplc/st/standard_fbs.hpp).
use Prim.Native.String.{String}
use soft_plc.Base.{List, [], ◌∷◌, ◌++◌, Str, codes}

-- Texts, each with a line feed behind it.
abbrev pub lines : List String → Str
lines [] = []
lines (s ∷ ss) = codes s ++ (10 ∷ lines ss)

-- kStandardFbLibrarySource
unfoldable pub standard_library : Str
standard_library = lines (
    "" ∷ "FUNCTION_BLOCK TON" ∷ "VAR_INPUT" ∷ "    IN : BOOL;" ∷ "    PT : TIME;" ∷ "END_VAR"
    ∷ "VAR_OUTPUT" ∷ "    Q : BOOL;" ∷ "    ET : TIME;" ∷ "END_VAR" ∷ "IF IN THEN"
    ∷ "    ET := ET + System.CycleTime;" ∷ "    IF ET > PT THEN" ∷ "        ET := PT;"
    ∷ "    END_IF;" ∷ "    IF ET >= PT THEN" ∷ "        Q := TRUE;" ∷ "    ELSE"
    ∷ "        Q := FALSE;" ∷ "    END_IF;" ∷ "ELSE" ∷ "    ET := T#0s;" ∷ "    Q := FALSE;"
    ∷ "END_IF;" ∷ "END_FUNCTION_BLOCK" ∷ "" ∷ "FUNCTION_BLOCK TOF" ∷ "VAR_INPUT" ∷ "    IN : BOOL;"
    ∷ "    PT : TIME;" ∷ "END_VAR" ∷ "VAR_OUTPUT" ∷ "    Q : BOOL;" ∷ "    ET : TIME;" ∷ "END_VAR"
    ∷ "IF IN THEN" ∷ "    Q := TRUE;" ∷ "    ET := T#0s;" ∷ "ELSE" ∷ "    IF Q THEN"
    ∷ "        ET := ET + System.CycleTime;" ∷ "        IF ET > PT THEN" ∷ "            ET := PT;"
    ∷ "        END_IF;" ∷ "        IF ET >= PT THEN" ∷ "            Q := FALSE;" ∷ "        END_IF;"
    ∷ "    END_IF;" ∷ "END_IF;" ∷ "END_FUNCTION_BLOCK" ∷ "" ∷ "FUNCTION_BLOCK CTU" ∷ "VAR_INPUT"
    ∷ "    CU : BOOL;" ∷ "    R : BOOL;" ∷ "    PV : DINT;" ∷ "END_VAR" ∷ "VAR_OUTPUT"
    ∷ "    Q : BOOL;" ∷ "    CV : DINT;" ∷ "END_VAR" ∷ "VAR" ∷ "    M : BOOL;" ∷ "END_VAR"
    ∷ "IF R THEN" ∷ "    CV := 0;" ∷ "    M := FALSE;" ∷ "ELSE" ∷ "    IF CU AND NOT M THEN"
    ∷ "        CV := CV + 1;" ∷ "    END_IF;" ∷ "    M := CU;" ∷ "END_IF;" ∷ "IF CV >= PV THEN"
    ∷ "    Q := TRUE;" ∷ "ELSE" ∷ "    Q := FALSE;" ∷ "END_IF;" ∷ "END_FUNCTION_BLOCK" ∷ ""
    ∷ "FUNCTION_BLOCK CTD" ∷ "VAR_INPUT" ∷ "    CD : BOOL;" ∷ "    LD : BOOL;" ∷ "    PV : DINT;"
    ∷ "END_VAR" ∷ "VAR_OUTPUT" ∷ "    Q : BOOL;" ∷ "    CV : DINT;" ∷ "END_VAR" ∷ "VAR"
    ∷ "    M : BOOL;" ∷ "END_VAR" ∷ "IF LD THEN" ∷ "    CV := PV;" ∷ "    M := FALSE;" ∷ "ELSE"
    ∷ "    IF CD AND NOT M THEN" ∷ "        IF CV > 0 THEN" ∷ "            CV := CV - 1;"
    ∷ "        END_IF;" ∷ "    END_IF;" ∷ "    M := CD;" ∷ "END_IF;" ∷ "IF CV <= 0 THEN"
    ∷ "    Q := TRUE;" ∷ "ELSE" ∷ "    Q := FALSE;" ∷ "END_IF;" ∷ "END_FUNCTION_BLOCK" ∷ [])
