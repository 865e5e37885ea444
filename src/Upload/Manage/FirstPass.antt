-- ===== src/Upload/Manage/FirstPass.antt =====
-- The submit button of manage-upload-file.js: when it can be used again.
use streaming_service.Base.JsMap
use streaming_service.Base.{
  Bool, Bool-cases, List, Option, [], arith, false, inl, inr, is_empty, leb, length, none, refl,
  some, true, ℕ, ◌&&◌, ◌+◌, ◌∙◌, ◌∷◌, ◌≡◌, ◌≢◌, ◌⊎◌,
}
use streaming_service.Base.JsMap.{JsMap}
use streaming_service.Base.Text.{Text}
use streaming_service.Browser.PathStack.{PathNode, current_path, full_current_path}
use streaming_service.Upload.Chunks.{Chunk}
use streaming_service.Upload.Manage.{
  Ended, FileReplies, LocalFile, Page, after_end, after_upload, broken, clear_uploading_list,
  closed, conclude, display_fail_texts, drop_file, end_entry, end_message, end_session, judge,
  manage_loop, manage_upload_file, rejected, release, reupload_each, reupload_one, start_total,
  submit, submit_allowed, upload_each, upload_one, validate_allow_upload,
}
use streaming_service.Upload.Manage.Retry.{and_then_rule}
use streaming_service.Upload.Session.{Entry, Outcome, failed, passed, raised, waiting}
use streaming_service.Upload.Workers.{Answer}

judge-submitting : (p : Page) (m : Text ⊎ Text) → (judge p m).0.submitting ≡ p.submitting
unfolding judge
judge-submitting p (inr e) = refl
judge-submitting p (inl m) = ground arith

after_end-submitting :
    (pe : Page × Ended) (key node : Text) → (after_end pe key node).0.submitting ≡ pe.0.submitting
unfolding after_end drop_file
after_end-submitting (p, rejected) key node = refl
after_end-submitting (p, broken e) key node = refl
after_end-submitting (p, closed) key node = ground arith

end_entry-submitting :
    (p : Page) (oe : Option Entry) (key name node : Text) (is_last : Bool) (a : Answer)
    → (end_entry p oe key name node is_last a).0.submitting ≡ p.submitting
unfolding end_entry end_session
end_entry-submitting p none key name node is_last a = refl
end_entry-submitting p (some e) key name node is_last a =
    after_end-submitting (end_session p e name is_last a) key node
    ∙ judge-submitting _ (end_message p.all_video a)

after_upload-submitting :
    (p : Page) (o : Outcome) (key name node : Text) (is_last : Bool) (a : Answer)
    → (after_upload p o key name node is_last a).0.submitting ≡ p.submitting
unfolding after_upload display_fail_texts
after_upload-submitting p waiting key name node is_last a = refl
after_upload-submitting p (raised e) key name node is_last a = refl
after_upload-submitting p failed key name node is_last a = refl
after_upload-submitting p passed key name node is_last a =
    end_entry-submitting p _ key name node is_last a

abbrev Busy : Page → Type 0
Busy q = q.submitting ≡ true

module _ (md5 : Chunk → Text) where
  upload_each-Busy :
      (p : Page) (path : Text) (fs : List LocalFile) (rs : List FileReplies)
      → Busy p
      → Busy (upload_each md5 p path fs rs).0
  unfolding upload_each upload_one
  upload_each-Busy p path [] rs h = h
  upload_each-Busy p path (f ∷ fs) [] h = h
  upload_each-Busy p path (f ∷ fs) (r ∷ rs) h =
      and_then_rule Busy Busy (upload_one md5 p path f (is_empty fs) r)
        (λ q. upload_each md5 q path fs rs)
        (after_upload-submitting _ _ _ _ f.name (is_empty fs) r.end ∙ h) (λ q hq. hq)
        (λ q hq. upload_each-Busy q path fs rs hq)

  reupload_one-Busy :
      (p : Page) (k : Text) (oe : Option Entry) (is_last : Bool) (r : FileReplies)
      → Busy p
      → Busy (reupload_one md5 p k oe is_last r).0
  unfolding reupload_one
  reupload_one-Busy p k none is_last r h = h
  reupload_one-Busy p k (some e) is_last r h =
      after_upload-submitting _ _ k e.file_name e.file_name is_last r.end ∙ h

  reupload_each-Busy :
      (total i : ℕ) (p : Page) (ks : List Text) (rs : List FileReplies)
      → Busy p
      → Busy (reupload_each md5 total i p ks rs).0
  unfolding reupload_each
  reupload_each-Busy total i p [] rs h = h
  reupload_each-Busy total i p (k ∷ ks) [] h = h
  reupload_each-Busy total i p (k ∷ ks) (r ∷ rs) h =
      and_then_rule Busy Busy
        (reupload_one md5 p k (JsMap.get p.uploads.uploading k) (leb total i) r)
        (λ q. reupload_each md5 total (i + 1) q ks rs)
        (reupload_one-Busy p k (JsMap.get p.uploads.uploading k) (leb total i) r h) (λ q hq. hq)
        (λ q hq. reupload_each-Busy total (i + 1) q ks rs hq)

conclude-Busy : (m : Page × Outcome) → Busy m.0 → Busy (conclude m).0
unfolding conclude clear_uploading_list
conclude-Busy (p, passed) h = ground arith
conclude-Busy (p, failed) h = h
conclude-Busy (p, waiting) h = h
conclude-Busy (p, raised e) h = h

module _ (md5 : Chunk → Text) where
  manage_loop-Busy :
      (m : JsMap Entry) (p : Page) (path : Text) (rs : List FileReplies)
      → Busy p
      → Busy (manage_loop md5 m p path rs).0
  unfolding manage_loop
  manage_loop-Busy [] p path rs h = upload_each-Busy md5 p path p.file_list rs h
  manage_loop-Busy (x ∷ m) p path rs h =
      reupload_each-Busy md5 (length (x ∷ m)) 0 p (JsMap.keys (x ∷ m)) rs h

  manage-Busy :
      (p : Page) (path : Text) (rs : List FileReplies)
      → Busy p
      → Busy (manage_upload_file md5 p path rs).0
  unfolding manage_upload_file
  manage-Busy p path rs h =
      let p' = record p { all_video = p.all_video && p.as_video } in
      conclude-Busy (manage_loop md5 p.uploads.uploading p' path rs)
        (manage_loop-Busy p.uploads.uploading p' path rs h)

-- How the handler has ended: it ran through and the button is free, or the button is taken.
abbrev pub Released : Page × Outcome → Type 0
Released m =
    ((m.1 ≡ passed) × (m.0.submitting ≡ false)) ⊎ ((m.1 ≢ passed) × (m.0.submitting ≡ true))

release-Released : (m : Page × Outcome) → Busy m.0 → Released (release m)
unfolding release
release-Released (p, passed) h = inl (refl, refl)
release-Released (p, failed) h = inr (λ e. cc, h)
release-Released (p, waiting) h = inr (λ e. cc, h)
release-Released (p, raised x) h = inr (λ e. cc, h)

submit_allowed-Released :
    (md5 : Chunk → Text) (p : Page) (stack : List PathNode) (rs : List FileReplies)
    → Released (submit_allowed md5 p stack rs)
unfolding submit_allowed
submit_allowed-Released md5 p stack rs =
    let total = start_total p.uploads.uploading p.total_progress p.file_list in
    let p' = record p { submitting = true; total_progress = total; shown = [] } in
    release-Released (manage_upload_file md5 p' (full_current_path stack) rs)
      (manage-Busy md5 p' (full_current_path stack) rs refl)

-- A click on the button when it is free leaves it free exactly if the handler runs to its end:
-- it stays taken while the handler waits, and for ever after an exception.
pub submit-Released :
    (md5 : Chunk → Text) (p : Page) (stack : List PathNode) (rs : List FileReplies)
    → p.submitting ≡ false
    → Released (submit md5 p stack rs)
unfolding submit
submit-Released md5 p stack rs h =
    elim (Bool-cases (validate_allow_upload p.file_list (current_path stack))) [
      | inl yes_allowed ↦
          simp (h, yes_allowed)
            (submit_allowed-Released md5 (record p { submitting = false; retry_label = false })
              stack rs)
      | inr not_allowed ↦ simp (h, not_allowed) (inl (refl, refl))
    ]

-- After an exception in the handler every later click is ignored.
pub submit_dead :
    (md5 : Chunk → Text) (p : Page) (stack : List PathNode) (rs : List FileReplies) (e : Text)
    → p.submitting ≡ false
    → (submit md5 p stack rs).1 ≡ raised e
    → (later : List PathNode) (more : List FileReplies)
    → submit md5 (submit md5 p stack rs).0 later more ≡ ((submit md5 p stack rs).0, passed)
submit_dead md5 p stack rs e h left_by later more = elim (submit-Released md5 p stack rs h) [
  | inl ran ↦ absurd (cc)
  | inr taken ↦ ignored (submit md5 p stack rs).0 taken.1
]
  where
    ignored : (q : Page) → q.submitting ≡ true → submit md5 q later more ≡ (q, passed)
    ignored q t = unfold submit in simp t
