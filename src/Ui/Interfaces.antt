-- ===== src/Ui/Interfaces.antt =====
-- src/ui/popup_interfaces.c: the list of network interfaces that a popup shows.
use net_det.Prelude.{
  ℕ, ◌+◌, ◌-◌, ◌^◌, not, Option, none, some, List, [], ◌∷◌, ◌++◌, map, length, Run, ok, fault,
  out_of_bounds, ◌>>=◌, at, not_null, if◌then◌else◌,
}
use net_det.Prelude.Int.{pos}
use net_det.App.Process.{app_err_if_nameindex, app_err_calloc}
use net_det.Common.Error.{main_error}
use net_det.Ui.Screen.{
  interfaces_list, set_popup_descriptor_data_count, all_name, IfEntry, Screen, PopupAnswers,
}

-- What `popup_list` points to: the copied entries, "all", and the zeroed entry that `calloc` left.
unfoldable pub copied_list : (Option (List ℕ) → Option (List ℕ)) → List IfEntry → List IfEntry
copied_list strdup entries =
    map (λ e. record { if_index = e.if_index; if_name = strdup e.if_name }) entries
    ++ record { if_index = 2 ^ 32 - 1; if_name = strdup all_name }
      ∷ record { if_index = 0; if_name = none }
      ∷ []

unfoldable pub prepare_interface_list : PopupAnswers → Screen → Screen
prepare_interface_list answers s = elim answers.if_nameindex [
  | none ↦ record s { process = main_error app_err_if_nameindex answers.errno s.process }
  | some entries ↦
      if not answers.calloc
      then record s {
        popup_list = none;
        process = main_error app_err_calloc answers.errno s.process;
      }
      else set_popup_descriptor_data_count interfaces_list (pos (length entries + 1))
          (record s { popup_list = some (copied_list answers.strdup entries) })
]

-- The loop of `interfaces_list_clean_up`, which frees names up to a null one.
unfoldable pub free_names : List IfEntry → Run (Unit {0})
free_names [] = fault out_of_bounds
free_names (e ∷ es) = elim e.if_name [ none ↦ ok tt | some name ↦ free_names es ]

unfoldable pub interfaces_list_clean_up : Screen → Run Screen
unfolding free_names
interfaces_list_clean_up s = do
  entries ← not_null s.popup_list
  done ← free_names entries
  ok (record s { popup_list = none })

-- `get_interface_index` and `get_interface_name`
unfoldable pub get_interface : ℕ → Screen → Run IfEntry
get_interface interface_index s = do entries ← not_null s.popup_list; at entries interface_index
