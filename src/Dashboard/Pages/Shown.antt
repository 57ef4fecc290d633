-- ===== src/Dashboard/Pages/Shown.antt =====
-- What `Shell` of dashboard/src/App.tsx shows after any clicks, and what it stores.
use taskfire.Prelude.{
  String, Bool, true, false, ◌≡◌, refl, Option, some, List, [], ◌∷◌, map, filter,
}
use taskfire.Dashboard.Live.{WsStatus}
use taskfire.Dashboard.Pages.{
  initial_dark, stored_dark, Page, overview, jobs, deadletter, workers, nav_items, label_of, Shell,
  first_render, Click, goes_to, toggles_dark, click, ShellView, shell_view,
}

abbrev pub run : List Click → Shell → Shell
run [] s = s
run (c ∷ cs) s = run cs (click c s)

abbrev highlighted : ShellView → List String
highlighted v = map (λ item. item.0) (filter (λ item. item.1) v.nav)

-- The mode is stored as the text that the next first render reads.
IsStored : Shell → Type 0
IsStored s = s.stored ≡ stored_dark s.dark

click-IsStored : (c : Click) (s : Shell) → IsStored s → IsStored (click c s)
unfolding click IsStored
click-IsStored (goes_to page) s h = h
click-IsStored toggles_dark s h = refl

run-IsStored : (cs : List Click) (s : Shell) → IsStored s → IsStored (run cs s)
run-IsStored [] s h = h
run-IsStored (c ∷ cs) s h = run-IsStored cs (click c s) (click-IsStored c s h)

read_back : (dark prefers_dark : Bool) → initial_dark (some (stored_dark dark)) prefers_dark ≡ dark
unfolding initial_dark stored_dark
read_back true prefers_dark = refl
read_back false prefers_dark = refl

shown_page :
    (status : WsStatus) (page : Page) (dark : Bool) (stored : String)
    → let v = shell_view status (record { page = page; dark = dark; stored = stored }) in
      (label : String) × (v.title ≡ some label) × (highlighted v ≡ label ∷ [])
unfolding shell_view nav_items label_of
shown_page status overview dark stored = ("Overview", refl, refl)
shown_page status jobs dark stored = ("Jobs", refl, refl)
shown_page status deadletter dark stored = ("Dead Letter", refl, refl)
shown_page status workers dark stored = ("Workers", refl, refl)

-- Whatever the user clicks from the first render on, the title is the label of the one highlighted
-- button of the sidebar, and a later first render, whatever scheme is preferred then, has the mode
-- that the user left.
pub run-shown :
    (stored : Option String) (prefers_dark : Bool) (cs : List Click) (status : WsStatus)
    (prefers_dark_later : Bool)
    → let s = run cs (first_render stored prefers_dark) in
      let v = shell_view status s in
      ((label : String) × (v.title ≡ some label) × (highlighted v ≡ label ∷ []))
      × ((first_render (some s.stored) prefers_dark_later).dark ≡ s.dark)
unfolding first_render IsStored
run-shown stored prefers_dark cs status later =
    let s = run cs (first_render stored prefers_dark) in
    let kept = run-IsStored cs (first_render stored prefers_dark) refl in
    (shown_page status s.page s.dark s.stored, rw kept (read_back s.dark later))
