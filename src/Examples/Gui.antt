-- ===== src/Examples/Gui.antt =====
-- examples/adsgui/main.go: the model of the screen, and how it takes the messages.
use notyetanotherenvoybacken.Common.{
  ℕ, ◌+◌, ◌-◌, ◌*◌, ◌/◌, ◌%◌, ◌^◌, String, Bool, true, false, ◌||◌, Option, none, some, List, [],
  ◌∷◌, Result, ok, err, length, ◌==◌, if◌then◌else◌, nat_eq, string_eq,
}

-- `item`
pub record Item : Type 0 where
  pub title : String
  pub desc : String
  pub body : String

-- `Msg`
pub record Msg : Type 0 where
  pub operation : String
  pub value : String

-- `tea.Msg`, with what the code reads of it: the size of the window, a message from the channel
-- with the time at which `time.Now` finds it, a key, or another message
pub data TeaMsg : Type 0 where
  window_size : ℕ → ℕ → TeaMsg
  activity : String → Msg → TeaMsg
  key : String → TeaMsg
  other : String → TeaMsg

-- What the graphical libraries do: `list.Model` is L, `viewport.Model` is V, and their commands
-- are C. A size is the 64-bit pattern of an int.
pub record Library (L V C : Type 0) : Type 0 where
  pub items : L → List Item
  pub insert_item : L → ℕ → Item → L
  pub set_size : L → ℕ → ℕ → L
  pub selected_item : L → Option Item
  pub update_list : L → TeaMsg → L × C
  pub view_list : L → String
  pub resize : V → ℕ → ℕ → V
  pub set_content : V → String → V
  pub update_viewport : V → TeaMsg → V × C
  pub view_viewport : V → String
  -- `GetFrameSize` of the list's style
  pub frame_size : ℕ × ℕ
  pub in_margin : String → String
  pub join_horizontal : List String → String
  -- `json.Indent`, and `quick.Highlight` of its result, whose error is dropped
  pub indent : String → Result String
  pub highlight : String → String

-- `model`, less the channel
pub record Model (L V : Type 0) : Type 0 where
  pub list : L
  pub viewport : V
  pub ready : Bool

-- `tea.Cmd`: to wait for the channel, to quit, or a batch of the libraries' commands
pub data Cmd (C : Type 0) : Type 0 where
  wait_for_activity : Cmd C
  quit : Cmd C
  batch : List C → Cmd C

-- the keys that quit
unfoldable pub is_quit_key : String → Bool
is_quit_key k = (k == "ctrl+c") || (k == "q")

-- `a - b` on 64-bit integers
abbrev int_minus : ℕ → ℕ → ℕ
int_minus a b = (a + (2 ^ 64 - b)) % 2 ^ 64

module _ {L V C : Type 0} (lib : Library L V C) where
  -- `Init`
  abbrev pub init_model : Model L V → Cmd C
  init_model m = wait_for_activity

  -- `colorizeJSON`
  unfoldable pub colorize_json : String → String
  colorize_json input = elim (lib.indent input) [ err e ↦ input | ok pretty ↦ lib.highlight pretty ]

  -- a message of the channel becomes the last item, and shows at once if it is the first
  unfoldable pub insert_message : String → Msg → Model L V → Model L V
  unfolding colorize_json
  insert_message time msg m =
      let new_list =
        lib.insert_item m.list (length (lib.items m.list))
          (record { title = msg.operation; desc = time; body = msg.value }) in
      record m {
        list = new_list;
        viewport =
            if length (lib.items new_list) == 1
            then lib.set_content m.viewport (colorize_json msg.value)
            else m.viewport;
      }

  -- a window of another size
  unfoldable pub resize_model : ℕ → ℕ → Model L V → Model L V
  resize_model width height m = record {
    list =
        lib.set_size m.list (int_minus (width / 3) lib.frame_size.0)
          (int_minus height lib.frame_size.1);
    viewport =
        lib.resize m.viewport (int_minus (((width * 2) % 2 ^ 64) / 3) lib.frame_size.0)
          (int_minus height lib.frame_size.1);
    ready = true;
  }

  -- the content of the item that is selected
  unfoldable pub show_selected : L → V → V
  unfolding colorize_json
  show_selected l v = elim (lib.selected_item l) [
    | none ↦ v
    | some i ↦ lib.set_content v (colorize_json i.body)
  ]

  -- what follows the switch: the list and the viewport take the message
  unfoldable pub pass_on : TeaMsg → Model L V → Model L V × Cmd C
  unfolding show_selected
  pass_on msg m =
      let (new_list, list_cmd) = lib.update_list m.list msg in
      let (new_view, view_cmd) = lib.update_viewport (show_selected new_list m.viewport) msg in
      (record m { list = new_list; viewport = new_view }, batch (list_cmd ∷ view_cmd ∷ []))

  -- a key
  unfoldable pub press : Bool → String → Model L V → Model L V × Cmd C
  unfolding pass_on
  press true k m = (m, quit)
  press false k m = pass_on (key k) m

  -- `Update`
  unfoldable pub update_model : TeaMsg → Model L V → Model L V × Cmd C
  unfolding insert_message resize_model pass_on press
  update_model (window_size w h) m = pass_on (window_size w h) (resize_model w h m)
  update_model (activity time msg) m = (insert_message time msg m, wait_for_activity)
  update_model (key k) m = press (is_quit_key k) k m
  update_model (other x) m = pass_on (other x) m

  -- `View`
  unfoldable pub view_model : Model L V → String
  view_model m =
      if m.ready
      then lib.join_horizontal
          (lib.in_margin (lib.view_list m.list) ∷ lib.in_margin (lib.view_viewport m.viewport) ∷ [])
      else "Initializing..."

  -- the program on the messages that it meets, until it quits: the model, and the commands
  unfoldable pub run_model : List TeaMsg → Model L V → Model L V × List (Cmd C)
  unfolding update_model
  run_model [] m = (m, [])
  run_model (msg ∷ rest) m =
      let (m', cmd) = update_model msg m in
      let (end, cmds) = run_model rest m' in
      elim cmd [
        | quit ↦ (m', quit ∷ [])
        | wait_for_activity ↦ (end, wait_for_activity ∷ cmds)
        | batch cs ↦ (end, batch cs ∷ cmds)
      ]
