-- ===== src/CanvasContext.antt =====
-- app/modules/session/canvas_context.py, and `_build_diagram_context` of
-- app/modules/session/router.py: the canvas as text for the model.
pub mod Budget
mod Tests
use grafux_orchestrator.Prelude.{
  ℕ, suc, ◌+◌, String, count, ◌<>◌, ◌==◌, Bool, true, false, not, ◌&&◌, ◌||◌, Option, none, some,
  List, [], ◌∷◌, ◌++◌, map, take, show, join, strip, rstrip, prefix, drop, starts_with, leb, ltb,
  if◌then◌else◌,
}
use grafux_orchestrator.Python.{
  Value, null, flag, text, arr, obj, Items, nil, cons, Fields, end, field, truthy, to_str, get,
  get_or, get_truthy, Outcome, ok, raised, cancelled, value_strip,
}

-- `f'{v}'` of `d.get(key, "")`.
abbrev pub shown : String → Fields → String
shown key d = to_str (get_or key (text "") d)

-- `format_library_entry`
unfoldable pub format_library_entry : Fields → String
unfolding get_or to_str truthy
format_library_entry entry =
    let block_type = shown "block_type" entry in
    let block_name = shown "block_name" entry in
    let category = get_or "category" (text "") entry in
    if truthy category
    then "  block_type=\""
      <> (block_type
          <> ("\" category=\""
              <> (to_str category <> ("\" block_name=\"" <> (block_name <> "\"")))))
    else "  block_type=\"" <> (block_type <> ("\" block_name=\"" <> (block_name <> "\"")))

-- `value == "" or value is None`
abbrev pub is_empty : Value → Bool
is_empty null = true
is_empty (text s) = s == ""
is_empty v = false

unfoldable pub truncation : Fields → String
unfolding get_or to_str show truthy
truncation port =
    if truthy (get_or "truncated" null port)
    then " …(truncated: showing "
      <> (show (count (shown "value" port))
          <> (" of "
              <> (to_str (get_or "full_length" null port)
                  <> " chars — call read_port_value to read the full file)")))
    else ""

-- `render_port`
unfoldable pub render_port : Fields → String
unfolding get_or to_str truthy truncation
render_port port =
    let value = get_or "value" (text "") port in
    let direction = if truthy (get_or "is_output" null port) then "out" else "in" in
    "    ["
    <> (direction
        <> ("] "
            <> (shown "name" port
                <> (": "
                    <> ((if is_empty value then "(empty)" else to_str value) <> truncation port)))))

-- The dictionaries of a list.
unfoldable pub dicts : Items → List Fields
dicts nil = []
dicts (cons (obj shown fs) vs) = fs ∷ dicts vs
dicts (cons v vs) = dicts vs

-- `block.get(key) or []`: a list; `for` over anything else that is true is an error.
unfoldable pub list_or_empty : String → Fields → Items
unfolding get_or
list_or_empty key block = elim (get_or key null block) [ arr shown vs ↦ vs | v ↦ nil ]

abbrev pub render_connection : Fields → String
render_connection c =
    "  connection: "
    <> (shown "from_port" c <> (" -> " <> (shown "to_block" c <> ("." <> shown "to_port" c))))

abbrev pub when_lines : Bool → List String → List String
when_lines true lines = lines
when_lines false lines = []

abbrev pub has_items : Items → Bool
has_items nil = false
has_items (cons v vs) = true

-- The lines of a block, with its description.
unfoldable pub block_lines : Fields → Bool → String → List String
unfolding get_or to_str dicts list_or_empty render_port
block_lines block active desc =
    let header =
      "Block \""
      <> (shown "name" block
          <> ("\" (" <> (shown "type" block <> (", " <> (shown "status" block <> ")"))))) in
    let ports = list_or_empty "ports" block in
    ((if active then header <> "  [ACTIVE]" else header)
      ∷ when_lines (not (desc == "")) (("  description: " <> desc) ∷ []))
    ++ (when_lines (has_items ports) ("  ports:" ∷ map render_port (dicts ports))
        ++ map render_connection (dicts (list_or_empty "connections" block)))

-- `render_block`; a description that is true and no text has no `strip`.
unfoldable pub render_block : Fields → Bool → Outcome String
unfolding get_truthy value_strip block_lines join
render_block block active = elim (value_strip (get_truthy "description" block)) [
  | ok desc ↦ ok (join "\n" (block_lines block active desc))
  | raised e ↦ raised e
  | cancelled ↦ cancelled
]

-- A block's name, as the sets of names hold it. Names are texts.
unfoldable pub block_name_of : Fields → String
unfolding get_or
block_name_of block = elim (get_or "name" null block) [ text s ↦ s | v ↦ "" ]

unfoldable pub has_name : String → List Fields → Bool
unfolding block_name_of
has_name name [] = false
has_name name (b ∷ bs) = name == block_name_of b || has_name name bs

-- The active blocks that the payload names.
unfoldable pub payload_of : List Fields → List Fields
unfolding block_name_of
payload_of [] = []
payload_of (b ∷ bs) = let rest = payload_of bs in if block_name_of b == "" then rest else b ∷ rest

-- The blocks of the canvas that are active and were not seen yet, each name once.
unfoldable pub unseen : List Fields → List Fields → List Fields → List Fields
unfolding has_name block_name_of
unseen active seen [] = []
unseen active seen (b ∷ bs) =
    let more = unseen active (b ∷ seen) bs in
    let rest = unseen active seen bs in
    if has_name (block_name_of b) active && not (has_name (block_name_of b) seen)
    then b ∷ more
    else rest

-- The blocks of the canvas that are not active.
unfoldable pub others : List Fields → List Fields → List Fields
unfolding has_name block_name_of
others active [] = []
others active (b ∷ bs) =
    let rest = others active bs in if has_name (block_name_of b) active then rest else b ∷ rest

unfoldable pub render_all : List Fields → Bool → Outcome (List String)
unfolding render_block
render_all [] active = ok []
render_all (b ∷ bs) active =
    let rest = render_all bs active in
    elim (render_block b active) [
      | ok chunk ↦ elim rest [
        | ok chunks ↦ ok (chunk ∷ chunks)
        | raised e ↦ raised e
        | cancelled ↦ cancelled
      ]
      | raised e ↦ raised e
      | cancelled ↦ cancelled
    ]

-- `used` after the active chunks.
unfoldable pub used_by : List String → ℕ
used_by [] = 0
used_by (chunk ∷ chunks) = count chunk + 2 + used_by chunks

-- The second loop: the chunks that the budget takes, from what is used already.
unfoldable pub fitting : ℕ → ℕ → List String → List String
fitting budget used [] = []
fitting budget used (chunk ∷ chunks) =
    let skipped = fitting budget used chunks in
    let taken = fitting budget (used + (count chunk + 2)) chunks in
    if ltb budget (used + count chunk) then skipped else chunk ∷ taken

-- `omitted`
unfoldable pub omitted : ℕ → ℕ → List String → ℕ
omitted budget used [] = 0
omitted budget used (chunk ∷ chunks) =
    let skipped = omitted budget used chunks in
    let taken = omitted budget (used + (count chunk + 2)) chunks in
    if ltb budget (used + count chunk) then suc skipped else taken

unfoldable pub omission : ℕ → List String
unfolding show
omission ℕ.zero = []
omission (suc n) =
    ("…("
      <> (show (suc n)
          <> " more block(s) not shown to save space; ask about them by name and call read_port_value for their port contents.)"))
    ∷ []

-- The parts, from the rendered active and other blocks.
unfoldable pub parts : ℕ → List String → List String → List String
unfolding used_by fitting omitted omission
parts budget active_rendered other_rendered =
    let used = used_by active_rendered in
    active_rendered
    ++ (fitting budget used other_rendered ++ omission (omitted budget used other_rendered))

-- The active blocks of the payload first, then those that only the canvas has.
unfoldable pub active_of : List Fields → List Fields → List Fields
unfolding payload_of unseen
active_of blocks active_blocks =
    let payload = payload_of active_blocks in payload ++ unseen payload payload blocks

-- `render_canvas_context`, over the dictionaries among the blocks and the active blocks.
unfoldable pub render_canvas_context : List Fields → List Fields → ℕ → Outcome String
unfolding active_of others payload_of render_all parts join
render_canvas_context blocks active_blocks budget =
    elim (render_all (active_of blocks active_blocks) true) [
      | ok active_rendered ↦ elim (render_all (others (payload_of active_blocks) blocks) false) [
        | ok other_rendered ↦ ok (join "\n\n" (parts budget active_rendered other_rendered))
        | raised e ↦ raised e
        | cancelled ↦ cancelled
      ]
      | raised e ↦ raised e
      | cancelled ↦ cancelled
    ]

abbrev pub when_some : String → String → List String
when_some heading body = if body == "" then [] else (heading <> body) ∷ []

abbrev pub library_lines : Option ℕ → List Fields → List Fields
library_lines none library = library
library_lines (some limit) library = take limit library

abbrev pub library_part : Option ℕ → List Fields → List String
library_part limit [] = []
library_part limit (e ∷ es) =
    ("Saved block library:\n"
      <> join "\n" (map format_library_entry (library_lines limit (e ∷ es))))
    ∷ []

abbrev pub or_empty : String → List String → String
or_empty empty [] = empty
or_empty empty (p ∷ ps) = join "\n\n" (p ∷ ps)

abbrev pub or_default : Option ℕ → ℕ
or_default none = 12000
or_default (some budget) = budget

-- `_build_diagram_context`, with the budget that `render_canvas_context` takes or has by default.
unfoldable pub build_diagram_context :
    List Fields → List Fields → List Fields → Option ℕ → Option ℕ → String → Outcome String
unfolding render_canvas_context format_library_entry join
build_diagram_context blocks active_blocks saved_library budget lib_limit empty =
    elim (render_canvas_context blocks active_blocks (or_default budget)) [
      | ok canvas_text ↦ ok (
          or_empty empty (
            when_some "Current canvas blocks:\n" canvas_text
            ++ library_part lib_limit saved_library))
      | raised e ↦ raised e
      | cancelled ↦ cancelled
    ]

abbrev pub marker : String
marker = "##ACTIONS##"

-- `full_text.rfind(marker)`: the text before the last marker, and the text behind it.
unfoldable pub split_last : String → Option (String × String)
unfolding drop
split_last String.[] = none
split_last (String.◌∷◌ c s) = elim (split_last s) [
  | some (before, behind) ↦ some (String.◌∷◌ c before, behind)
  | none ↦
      if starts_with (String.◌∷◌ c s) marker
      then some ("", drop (count marker) (String.◌∷◌ c s))
      else none
]

-- `parsed.get("actions", [])`; a value that is no dictionary has no `get`.
unfoldable pub actions_of : Outcome Value → Value
unfolding get_or
actions_of (ok (obj shown fs)) = get_or "actions" (arr "[]" nil) fs
actions_of r = arr "[]" nil

-- `parse_actions_tag`, over `json.loads`.
unfoldable pub parse_actions_tag : (String → Outcome Value) → String → String × Value
unfolding split_last actions_of strip rstrip
parse_actions_tag loads full_text = elim (split_last full_text) [
  | none ↦ (full_text, arr "[]" nil)
  | some (before, behind) ↦ (rstrip before, actions_of (loads (strip behind)))
]
