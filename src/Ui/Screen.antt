-- ===== src/Ui/Screen.antt =====
-- include/ui/tui.h, include/ui/popup_templates.h and src/ui/popup_templates.c: the windows and the
-- descriptors of the two popups. The answers of ncurses, if_nameindex, calloc and strdup are a record.
use net_det.Prelude.{ℕ, Bool, true, false, Option, some, List, [], ◌∷◌}
use net_det.Prelude.Int.{ℤ}
use net_det.App.Process.{Process}
use net_det.Ui.ScrollView.{ScrollView}

-- `window` and `panel` are ncurses' handles.
pub record WindowData : Type 0 where
  pub is_active : Bool
  pub width : ℤ
  pub height : ℤ
  pub start_x : ℤ
  pub start_y : ℤ
  pub window : Option ℕ
  pub panel : Option ℕ

pub data PopupType : Type 0 where
  interfaces_list inspect_list : PopupType

abbrev pub same_type : PopupType → PopupType → Bool
same_type interfaces_list interfaces_list = true
same_type interfaces_list inspect_list = false
same_type inspect_list interfaces_list = false
same_type inspect_list inspect_list = true

-- `args` is the device that the popup is about.
pub record PopupDescriptor : Type 0 where
  pub data_count : ℤ
  pub args : Option ℕ
  pub view : ScrollView

-- `struct if_nameindex`
pub record IfEntry : Type 0 where
  pub if_index : ℕ
  pub if_name : Option (List ℕ)

-- The main window, the popup window and its type, the descriptors, `popup_list`, the device to which the
-- statics of src/ui/popup_inspect.c point, `is_visible` of `popup_window_action`, and the statics.
pub record Screen : Type 0 where
  pub main_window : WindowData
  pub popup_window : WindowData
  pub popup_type : PopupType
  pub interfaces : PopupDescriptor
  pub inspect : PopupDescriptor
  pub popup_list : Option (List IfEntry)
  pub inspected : Option ℕ
  pub is_visible : Bool
  pub process : Process

-- The handles that `newwin` and `new_panel` return, the interfaces that `if_nameindex` lists before the
-- entry of index 0 (or null), whether `calloc` finds memory, the copy of a name that `strdup` makes, and
-- `errno`.
pub record PopupAnswers : Type 0 where
  pub newwin : Option ℕ
  pub new_panel : Option ℕ
  pub if_nameindex : Option (List IfEntry)
  pub calloc : Bool
  pub strdup : Option (List ℕ) → Option (List ℕ)
  pub errno : ℤ

abbrev pub get_popup_descriptor : PopupType → Screen → PopupDescriptor
get_popup_descriptor interfaces_list s = s.interfaces
get_popup_descriptor inspect_list s = s.inspect

abbrev pub set_popup_descriptor : PopupType → PopupDescriptor → Screen → Screen
set_popup_descriptor interfaces_list d s = record s { interfaces = d }
set_popup_descriptor inspect_list d s = record s { inspect = d }

abbrev pub set_popup_descriptor_data_count : PopupType → ℤ → Screen → Screen
set_popup_descriptor_data_count type count s =
    set_popup_descriptor type (record (get_popup_descriptor type s) { data_count = count }) s

abbrev pub get_popup_descriptor_scroll_view : PopupType → Screen → ScrollView
get_popup_descriptor_scroll_view type s = (get_popup_descriptor type s).view

-- The name "all"
abbrev pub all_name : Option (List ℕ)
all_name = some (97 ∷ 108 ∷ 108 ∷ [])
