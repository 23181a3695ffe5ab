-- ===== src/CanvasContext/Tests.antt =====
-- Concrete texts of app/modules/session/canvas_context.py.
use grafux_orchestrator.Prelude.{String, ◌≡◌, refl, true, some, [], ◌∷◌}
use grafux_orchestrator.Python.{flag, text, arr, obj, nil, cons, Fields, end, field, ok, raised}
use grafux_orchestrator.CanvasContext.{
  render_port, render_block, render_canvas_context, build_diagram_context, omission, parts,
  parse_actions_tag,
}
use grafux_orchestrator.CanvasContext.Budget.{IsBudgeted, parts-IsBudgeted}

abbrev port : Fields
port = field "name" (text "spec") (field "is_output" (flag true) (field "value" (text "") end))

abbrev block : String → Fields
block name =
    field "name" (text name)
      (field "type" (text "hdl") (field "ports" (arr "" (cons (obj "" port) nil)) end))

render_port-empty : render_port port ≡ "    [out] spec: (empty)"
unfolding render_port
render_port-empty = refl

render_block-active :
    render_block (block "alu") true
    ≡ ok "Block \"alu\" (hdl, )  [ACTIVE]\n  ports:\n    [out] spec: (empty)"
unfolding render_block
render_block-active = refl

-- The active block is shown in full; there is no room for the other one.
render_canvas_context-omission :
    render_canvas_context (block "alu" ∷ block "fpu" ∷ []) (block "alu" ∷ []) 40
    ≡ ok
        "Block \"alu\" (hdl, )  [ACTIVE]\n  ports:\n    [out] spec: (empty)\n\n…(1 more block(s) not shown to save space; ask about them by name and call read_port_value for their port contents.)"
unfolding render_canvas_context
render_canvas_context-omission = refl

build_diagram_context-empty : build_diagram_context [] [] [] (some 6000) (some 30) "" ≡ ok ""
unfolding build_diagram_context
build_diagram_context-empty = refl

parse_actions_tag-last :
    parse_actions_tag
      (λ s. ok (obj "" (field "actions" (text s) end)))
      "a ##ACTIONS## b ##ACTIONS## {}"
    ≡ ("a ##ACTIONS## b", text "{}")
unfolding parse_actions_tag
parse_actions_tag-last = refl

parse_actions_tag-none :
    parse_actions_tag (λ s. raised "no JSON") "no tag " ≡ ("no tag ", arr "[]" nil)
unfolding parse_actions_tag
parse_actions_tag-none = refl

-- The second of the other blocks does not fit, the third does.
parts-noted :
    parts 14 ("aaaa" ∷ []) ("bb" ∷ "cccccccc" ∷ "dd" ∷ []) ≡ "aaaa" ∷ "bb" ∷ "dd" ∷ omission 1
unfolding parts
parts-noted = refl

parts-IsBudgeted_example :
    IsBudgeted 14
      ("aaaa" ∷ [])
      ("bb" ∷ "cccccccc" ∷ "dd" ∷ [])
      (parts 14 ("aaaa" ∷ []) ("bb" ∷ "cccccccc" ∷ "dd" ∷ []))
parts-IsBudgeted_example = parts-IsBudgeted 14 ("aaaa" ∷ []) ("bb" ∷ "cccccccc" ∷ "dd" ∷ [])
