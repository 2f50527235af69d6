-- ===== src/NameServer/Tests.antt =====
-- Tests of the model of src/name_server/name_server.c on a map that holds no name.
use armv4_kernel.Prelude.{ℕ, false, List, [], ◌∷◌, ◌≡◌, some, arith, ◌==◌, if◌then◌else◌}
use armv4_kernel.Queue.{null, queue_init}
use armv4_kernel.CString.{Bytes}
use armv4_kernel.CString.Compare.{IsBytes}
use armv4_kernel.NameServer.{NameMap, MsgType, name_map_init}
use armv4_kernel.NameServer.Loop.{Request, Outcome, name_server_loop}
use armv4_kernel.NameServer.Loop.History.{name_server_main-promise}
use armv4_kernel.NameServer.Map.{IsNameMap, HasBytes, name_map_init-IsNameMap}

abbrev junk : NameMap
junk = record {
  queue = queue_init;
  nodes = record { payload = λ a. 0; next = λ a. null };
  node_data = λ i. record { name = λ j. 7; tid = 9 };
}

-- "clock"
abbrev clock_name : Bytes
clock_name i =
    if i == 0
    then 99
    else if i == 1
    then 108
    else if i == 2
    then 111
    else if i == 3
    then 99
    else if i == 4
    then 107
    else 0

junk-HasBytes : HasBytes junk
junk-HasBytes i j = omega arith

clock_name-IsBytes : IsBytes clock_name
clock_name-IsBytes i = ground arith

start-IsNameMap : IsNameMap (name_map_init junk) 0
start-IsNameMap = name_map_init-IsNameMap junk junk-HasBytes

-- Two tasks register the same name, with a question before, between and after.
abbrev request : ℕ → MsgType → Request
request sender type = record { failed = false; sender = sender; type = type; name = clock_name }

abbrev run : List Request
run =
    request 9 MsgType.who_is
    ∷ request 3 MsgType.register
    ∷ request 9 MsgType.who_is
    ∷ request 4 MsgType.register
    ∷ request 9 MsgType.who_is
    ∷ request 8 MsgType.exit
    ∷ request 9 MsgType.who_is
    ∷ []

name_server_main-promise_example :
    (o : Outcome) × (name_server_loop run (name_map_init junk) ≡ some o)
    × (o.replies ≡ (9, 1) ∷ (3, 0) ∷ (9, 3) ∷ (4, 0) ∷ (9, 4) ∷ [])
name_server_main-promise_example =
    name_server_main-promise junk run junk-HasBytes
      (
        clock_name-IsBytes,
        (
          clock_name-IsBytes,
          (
            clock_name-IsBytes,
            (
              clock_name-IsBytes,
              (clock_name-IsBytes, (clock_name-IsBytes, (clock_name-IsBytes, tt))),
            ),
          ),
        ),
      )
      (omega arith)
