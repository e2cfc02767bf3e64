-- ===== src/CommandGate/Evasion.antt =====
-- A command cannot hide behind spaces or arguments.
use Prim.Native.Char.{Char}
use Prim.Native.String.{String, [], ◌∷◌, ◌++◌}
use mathlib.Core.Path.{◌≡◌, sym, ap, ap₂, ◌∙◌}
use text.Mathlib.TextLemmas.{nil-append, append-nil}
use aimclaw.Base.{Option, none, some, if◌then◌else◌}
use aimclaw.Text.{trim}
use aimclaw.Text.Words.{IsBlank, HasNoSpace, EndsWord, first_word-trim, begins_with-trim}
use aimclaw.Json.{str, obj, Fields, field, Content, json}
use aimclaw.Permissions.{Central}
use aimclaw.CommandGate.{read_content, command_of, gate_word, gate_command}

-- The message of a text, with whatever other fields.
abbrev pub message : String → Fields → Content
message text fs = json (obj (field "text" (str text) fs))

module _ (lower : String → String) where
  command_of-trim :
      (pad w rest : String) (c : Char)
      → IsBlank pad
      → HasNoSpace (c ∷ w)
      → EndsWord rest
      → command_of lower (trim (pad ++ ((c ∷ w) ++ rest))) ≡ command_of lower (c ∷ w)
  unfolding command_of
  command_of-trim pad w rest c blank h e =
      ap₂ (λ b word. if b then some (lower word) else none)
        (begins_with-trim pad w rest c "/" blank h.0) (first_word-trim pad w rest c blank h e)

  gate_command-message :
      (db : Central) (user : Option String) (group : String) (fs : Fields) (s t : String)
      → command_of lower (trim s) ≡ command_of lower (trim t)
      → gate_command lower db (message s fs) user group
        ≡ gate_command lower db (message t fs) user group
  unfolding gate_command
  gate_command-message db user group fs s t e =
      ap (gate_word db (read_content (message s fs)).1 user group) e

  -- The gate answers a command with spaces before it and arguments after it as it answers the bare command.
  pub gate_command_bare :
      (db : Central) (user : Option String) (group : String) (fs : Fields) (pad w rest : String)
      (c : Char)
      → IsBlank pad
      → HasNoSpace (c ∷ w)
      → EndsWord rest
      → gate_command lower db (message (pad ++ ((c ∷ w) ++ rest)) fs) user group
        ≡ gate_command lower db (message (c ∷ w) fs) user group
  gate_command_bare db user group fs pad w rest c blank h e =
      gate_command-message db user group fs (pad ++ ((c ∷ w) ++ rest)) (c ∷ w) (
        command_of-trim pad w rest c blank h e
        ∙ sym (rw (nil-append, append-nil) at (command_of-trim [] w [] c tt h tt)))
