-- ===== src/Browser/Menu/Requests.antt =====
-- The requests that `add as video`, `add as album` and `add as grouper` of file-manager-page.js send.
use streaming_service.Base.{
  Bool-cases, List, [], ap, append-nil, append_assoc, false, if◌then◌else◌, inl, inr, is_empty,
  is_some, not, refl, suc, sym, take, true, ℕ, ◌++◌, ◌||◌, ◌∙◌, ◌∷◌, ◌≡◌, ◌≢◌, ◌⊎◌,
}
use streaming_service.Base.JsMap.{JsMap}
use streaming_service.Base.Text.{Text, text_eq}
use streaming_service.Browser.Menu.{
  Course, Kind, Target, add_as, add_as_loop, close_add_as, crashed, done, early, pending, post,
}
use streaming_service.Browser.State.{Request, SelectedFile, State, inform, send}
use streaming_service.FileManager.Search.{hit}
use streaming_service.Upload.Workers.{Answer, answered, refused, thrown}

-- One request for each selected file of the wanted type, in the order of the selection.
pub wanted_requests : Kind → JsMap SelectedFile → List Request
wanted_requests kind [] = []
wanted_requests kind ((k, f) ∷ m) =
    let rest = wanted_requests kind m in
    if text_eq f.file_type kind.wanted then post (kind.url ++ k) ∷ rest else rest

-- A number of the wanted requests has been sent, and all of them if the handler runs through.
pub record Asked (kind : Kind) (before : List Request) (m : JsMap SelectedFile) (r : State × Course)
    : Type 0 where
  pub count : ℕ
  pub sent : r.0.sent ≡ before ++ take count (wanted_requests kind m)
  pub all : (r.1 ≢ done) ⊎ (take count (wanted_requests kind m) ≡ wanted_requests kind m)

-- A file of the wanted type at the front.
Asked-more :
    (kind : Kind) (before : List Request) (k : Text) (f : SelectedFile) (m : JsMap SelectedFile)
    (r : State × Course)
    → text_eq f.file_type kind.wanted ≡ true
    → Asked kind (before ++ post (kind.url ++ k) ∷ []) m r
    → Asked kind before ((k, f) ∷ m) r
unfolding wanted_requests
Asked-more kind before k f m r hit a = record {
  count = suc a.count;
  sent = rw hit (
      a.sent
      ∙ append_assoc before (post (kind.url ++ k) ∷ []) (take a.count (wanted_requests kind m)));
  all =
      rw hit
        (elim a.all [ inl other ↦ inl other | inr same ↦ inr (ap (post (kind.url ++ k) ∷◌) same) ]);
}

Asked-skip :
    (kind : Kind) (before : List Request) (k : Text) (f : SelectedFile) (m : JsMap SelectedFile)
    (r : State × Course)
    → text_eq f.file_type kind.wanted ≡ false
    → Asked kind before m r
    → Asked kind before ((k, f) ∷ m) r
unfolding wanted_requests
Asked-skip kind before k f m r miss a = record {
  count = a.count;
  sent = rw miss a.sent;
  all = rw miss a.all;
}

Asked-none :
    (kind : Kind) (before : List Request) (m : JsMap SelectedFile) (r : State × Course)
    → r.0.sent ≡ before
    → r.1 ≢ done
    → Asked kind before m r
Asked-none kind before m r same unfinished = record {
  count = 0;
  sent = same ∙ sym (append-nil before);
  all = inl unfinished;
}

add_as_loop-Asked :
    (kind : Kind) (s : State) (m : JsMap SelectedFile) (answers : List Answer)
    → Asked kind s.sent m (add_as_loop kind s m answers)
unfolding add_as_loop
add_as_loop-Asked kind s [] answers =
    unfold wanted_requests in record { count = 0; sent = sym (append-nil s.sent); all = inr refl }
add_as_loop-Asked kind s ((k, f) ∷ m) [] = elim (Bool-cases (text_eq f.file_type kind.wanted)) [
  | inl hit ↦ rw hit (
      Asked-more kind s.sent k f m (send s (post (kind.url ++ k)), pending) hit
        (Asked-none kind _ m _ refl (λ h. cc)))
  | inr miss ↦ rw miss (Asked-skip kind s.sent k f m _ miss (add_as_loop-Asked kind s m []))
]
add_as_loop-Asked kind s ((k, f) ∷ m) (answered t ∷ answers) =
    elim (Bool-cases (text_eq f.file_type kind.wanted)) [
      | inl hit ↦ rw hit (
          Asked-more kind s.sent k f m _ hit
            (add_as_loop-Asked kind (inform (send s (post (kind.url ++ k))) t true) m answers))
      | inr miss ↦
          rw miss (
            Asked-skip kind s.sent k f m _ miss (add_as_loop-Asked kind s m (answered t ∷ answers)))
    ]
add_as_loop-Asked kind s ((k, f) ∷ m) (refused t ∷ answers) =
    elim (Bool-cases (text_eq f.file_type kind.wanted)) [
      | inl hit ↦ rw hit (
          Asked-more kind s.sent k f m _ hit (
            Asked-none kind _ m
              (inform (send s (post (kind.url ++ k))) (kind.failure ++ t) false, early) refl
              (λ h. cc)))
      | inr miss ↦
          rw miss
            (Asked-skip kind s.sent k f m _ miss (add_as_loop-Asked kind s m (refused t ∷ answers)))
    ]
add_as_loop-Asked kind s ((k, f) ∷ m) (thrown t ∷ answers) =
    elim (Bool-cases (text_eq f.file_type kind.wanted)) [
      | inl hit ↦ rw hit (
          Asked-more kind s.sent k f m _ hit
            (Asked-none kind _ m (send s (post (kind.url ++ k)), crashed) refl (λ h. cc)))
      | inr miss ↦
          rw miss
            (Asked-skip kind s.sent k f m _ miss (add_as_loop-Asked kind s m (thrown t ∷ answers)))
    ]

close_add_as-Asked :
    (kind : Kind) (before : List Request) (m : JsMap SelectedFile) (r : State × Course)
    → Asked kind before m r
    → Asked kind before m (close_add_as kind r)
unfolding close_add_as
close_add_as-Asked kind before m (s, done) a = record {
  count = a.count;
  sent = a.sent;
  all = a.all;
}
close_add_as-Asked kind before m (s, early) a = a
close_add_as-Asked kind before m (s, crashed) a = a
close_add_as-Asked kind before m (s, pending) a = a

-- Files are made into media one request for each, only for files of the wanted type, in the order of
-- the selection, and for all of them if no request fails.
pub add_as-Asked :
    (kind : Kind) (s : State) (t : Target) (answers : List Answer)
    → Asked kind s.sent s.selected (add_as kind s t answers)
unfolding add_as
add_as-Asked kind s t answers = elim (Bool-cases (not (is_some t.id) || is_empty s.selected)) [
  | inl refuse ↦ rw refuse (Asked-none kind s.sent s.selected (s, early) refl (λ h. cc))
  | inr allow ↦ rw allow (
      close_add_as-Asked kind s.sent s.selected (add_as_loop kind s s.selected answers)
        (add_as_loop-Asked kind s s.selected answers))
]
