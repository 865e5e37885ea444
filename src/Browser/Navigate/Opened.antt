-- ===== src/Browser/Navigate/Opened.antt =====
-- Laws of moving between folders in file-manager-page.js.
use streaming_service.Base.{
  Bool, Bool-cases, Option, [], ap, arith, false, inl, inr, none, refl, true, ℕ, ◌++◌, ◌∙◌, ◌∷◌,
  ◌≡◌, ◌≢◌,
}
use streaming_service.Base.Text.{Text, opt_eq}
use streaming_service.Browser.Fetch.{
  Listing, Reply, begin_fetch, busy, end_fetch, fetch_more_files, get_root_dir, lost, not_ok,
  replied, set_current_uri,
}
use streaming_service.Browser.Navigate.{
  at_root, begin_home, click_back, click_home, click_path, end_home, enter_root, root_node, settle,
}
use streaming_service.Browser.PathStack.{clear_path, clear_path_lem, push_path}
use streaming_service.Browser.Selection.{cancel_moving, cancel_selection}
use streaming_service.Browser.State.{
  End, State, aborted, completed, display_file_item, given_items, main_items,
}
use streaming_service.Browser.State.Kept.{display_file_item-Kept}

module _ (t : State) (taken : t.processing ≡ true) where
  fetch_busy :
      (id page : Option Text) (full : Bool) (r : Reply)
      → fetch_more_files t id page full r ≡ (t, busy)
  unfolding fetch_more_files
  fetch_busy id page full r = rw taken

  home_busy : (r : Reply) → click_home t r ≡ (t, completed)
  unfolding click_home
  home_busy r = rw taken

  back_busy : (r : Reply) → click_back t r ≡ (t, completed)
  unfolding click_back
  back_busy r = rw taken

  path_busy :
      (index : ℕ) (is_root : Bool) (r : Reply) → click_path t index is_root r ≡ (t, completed)
  unfolding click_path
  path_busy index is_root r = rw taken

-- `isProcessing` after a fetch.
fetch-processing :
    (s : State) (id page : Option Text) (full : Bool)
    → (fetch_more_files s id page full lost).0.processing ≡ true
unfolding fetch_more_files begin_fetch end_fetch
fetch-processing s id page full = ground arith

-- An exception in `fetchMoreFiles` leaves `isProcessing` set. From then on no fetch is made, and the
-- path bar, the back button and the home button do nothing.
pub fetch_lost_freezes :
    (s : State) (id page : Option Text) (full : Bool) (id' page' : Option Text) (full' : Bool)
    (reply : Reply) (index : ℕ) (is_root : Bool)
    → let frozen = (fetch_more_files s id page full lost).0 in
      (fetch_more_files frozen id' page' full' reply ≡ (frozen, busy))
      × (click_home frozen reply ≡ (frozen, completed))
      × (click_back frozen reply ≡ (frozen, completed))
      × (click_path frozen index is_root reply ≡ (frozen, completed))
fetch_lost_freezes s id page full id' page' full' reply index is_root =
    let t = (fetch_more_files s id page full lost).0 in
    let taken = fetch-processing s id page full in
    (
      fetch_busy t taken id' page' full' reply,
      home_busy t taken reply,
      back_busy t taken reply,
      path_busy t taken index is_root reply,
    )

-- Every answer of the server but an exception frees the page again.
pub fetch_answered_frees :
    (s : State) (id page : Option Text) (full : Bool) (reply : Reply)
    → s.processing ≡ false
    → reply ≢ lost
    → (fetch_more_files s id page full reply).0.processing ≡ false
unfolding fetch_more_files begin_fetch end_fetch
fetch_answered_frees s id page full (replied l) idle h = rw idle
fetch_answered_frees s id page full not_ok idle h = rw idle
fetch_answered_frees s id page full lost idle h = absurd (h refl)

settle-path : (m : State × End) → (settle m).0.path ≡ m.0.path
unfolding settle cancel_selection cancel_moving
settle-path (s, aborted) = refl
settle-path (s, completed) = elim (Bool-cases s.moving) [ inl m ↦ rw m refl | inr m ↦ rw m refl ]

end_home-path :
    (s : State) (l : Listing) → (end_home s (replied l)).0.path ≡ s.path ++ root_node l ∷ []
unfolding end_home enter_root get_root_dir push_path at_root
end_home-path s l =
    let t = at_root (get_root_dir s (replied l)).0 l in
    settle-path (display_file_item t (given_items l.content) main_items true true true)
    ∙ (display_file_item-Kept t (given_items l.content) main_items true true true).path

set_current_uri-path : (s : State) (id : Option Text) → (set_current_uri s id).path ≡ s.path
unfolding set_current_uri
set_current_uri-path s id = elim (Bool-cases (opt_eq s.previous_id id)) [
  | inl same ↦ rw same refl
  | inr other ↦ rw other refl
]

begin_home-path : (s : State) → (begin_home s).path ≡ []
unfolding begin_home
begin_home-path s =
    set_current_uri-path (record s { path = clear_path s.path }) none ∙ clear_path_lem s.path

-- Two clicks on the home button before the first answer: each clears the path, and then each answer
-- adds the root, so that the path has it twice.
pub home_twice :
    (s : State) (first second : Listing)
    → let start = begin_home (begin_home s) in
      (end_home (end_home start (replied first)).0 (replied second)).0.path
      ≡ root_node first ∷ root_node second ∷ []
home_twice s first second =
    let start = begin_home (begin_home s) in
    let once : (end_home start (replied first)).0.path ≡ root_node first ∷ [] =
      end_home-path start first
      ∙ ap (λ p. p ++ root_node first ∷ []) (begin_home-path (begin_home s)) in
    end_home-path (end_home start (replied first)).0 second
    ∙ ap (λ p. p ++ root_node second ∷ []) once
