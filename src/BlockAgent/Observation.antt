-- ===== src/BlockAgent/Observation.antt =====
-- `_render_observation` of app/modules/session/block_agent.py.
use grafux_orchestrator.Prelude.{
  ◌<>◌, String, count, ◌==◌, Bool, true, List, [], ◌∷◌, ◌++◌, show, join, if◌then◌else◌,
}
use grafux_orchestrator.Python.{
  Value, null, flag, text, arr, obj, Items, nil, cons, Fields, truthy, to_str, get_or, word,
  type_name, or_text, Outcome, ok, raised, cancelled,
}
use grafux_orchestrator.BlockAgent.Policy.{when_list}

abbrev pub observed_ok : Fields → Bool
observed_ok observation = truthy (get_or "ok" (flag true) observation)

-- The dictionaries among the ports whose `changed` holds.
changed_ports : Items → List Fields
unfolding truthy get_or
changed_ports nil = []
changed_ports (cons (obj shown port) rest) =
    when_list (truthy (get_or "changed" null port)) (port ∷ []) ++ changed_ports rest
changed_ports (cons v rest) = changed_ports rest

-- `observation.get("ports") or []`, gone through: a text has no dictionaries among its
-- characters, nor has a dictionary among its keys, and other true values cannot be gone through.
ports_of : Value → Outcome (List Fields)
unfolding truthy changed_ports
ports_of (arr shown items) = ok (changed_ports items)
ports_of (text s) = ok []
ports_of (obj shown fs) = ok []
ports_of v = if truthy v then raised ("'" <> (type_name v <> "' object is not iterable")) else ok []

port_line : Fields → String
unfolding to_str get_or truthy show
port_line port =
    let value = or_text (to_str (get_or "value" (text "") port)) "(empty)" in
    let line =
      "  ["
      <> (to_str (get_or "direction" (text "out") port)
          <> ("] " <> (to_str (get_or "name" (text "") port) <> (": " <> value)))) in
    if truthy (get_or "truncated" null port)
    then line
      <> (" ...(truncated: showing "
          <> (show (count value)
              <> (" of "
                  <> (to_str (get_or "full_length" (text "?") port)
                      <> " chars - call read_port_value to read the full file)"))))
    else line

port_lines : List Fields → List String
unfolding port_line
port_lines [] = []
port_lines (p ∷ ps) = port_line p ∷ port_lines ps

status_line : Fields → String → String
unfolding word
status_line observation status =
    let block = word "block" observation in
    let line = if block == "" then "Status: " <> status else block <> (" is now " <> status) in
    let sub = word "sub_status" observation in
    if sub == "" then line else line <> (" (" <> (sub <> ")"))

abbrev nonempty : String → List String → List String
nonempty s lines = if s == "" then [] else lines

-- The lines about ports: those that changed, or that none did.
changes : List Fields → String → List String
unfolding port_lines
changes [] status = nonempty status ("No output port changed." ∷ [])
changes (p ∷ ps) status = "Ports that changed:" ∷ port_lines (p ∷ ps)

unfoldable pub render_observation : Fields → Outcome String
unfolding truthy get_or word ports_of status_line changes join
render_observation observation =
    let detail = word "detail" observation in
    let status = word "status" observation in
    let error = word "error" observation in
    if observed_ok observation
    then elim (ports_of (get_or "ports" null observation)) [
      | raised e ↦ raised e
      | cancelled ↦ cancelled
      | ok changed ↦ ok (
          or_text
            (join "\n" (
              nonempty detail (detail ∷ [])
              ++ (nonempty status (status_line observation status ∷ [])
                  ++ (changes changed status
                      ++ nonempty error (("Reported error: " <> error) ∷ [])))))
            "Done.")
    ]
    else ok ("FAILED: " <> or_text detail "the action could not be applied.")
