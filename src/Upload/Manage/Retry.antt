-- ===== src/Upload/Manage/Retry.antt =====
-- What a retry of manage-upload-file.js does and does not do.
use streaming_service.Base.JsMap
use streaming_service.Base.{
  Bool, List, Option, [], arith, false, if◌then◌else◌, inl, inr, leb, length, none, refl, some,
  true, ℕ, ◌++◌, ◌+◌, ◌∷◌, ◌≡◌, ◌≤◌, ◌⊎◌,
}
use streaming_service.Base.JsMap.{JsMap}
use streaming_service.Base.Text.{Text}
use streaming_service.Browser.Messages.{step}
use streaming_service.Upload.Chunks.{Chunk}
use streaming_service.Upload.Manage.{
  EndRequest, Ended, FileReplies, LocalFile, Page, after_end, after_upload, and_then, broken,
  closed, display_fail_texts, drop_file, end_entry, end_message, end_session, judge, rejected,
  retry_attempt, reupload_each, reupload_one, type_error, upload_each, upload_one,
}
use streaming_service.Upload.Paths.{video_title}
use streaming_service.Upload.Session.{Entry, Outcome, failed, passed, raised, upload_file, waiting}
use streaming_service.Upload.Workers.{Answer}

-- How many of the requests say that they are the last.
pub count_last : List EndRequest → ℕ
count_last [] = 0
count_last (r ∷ rs) = (if r.is_last then 1 else 0) + count_last rs

count_last-append :
    (xs ys : List EndRequest) → count_last (xs ++ ys) ≡ count_last xs + count_last ys
unfolding count_last
count_last-append [] ys = omega arith
count_last-append (x ∷ xs) ys = omega (arith, count_last-append xs ys)

abbrev bit : Bool → ℕ
bit b = if b then 1 else 0

judge-ended : (p : Page) (m : Text ⊎ Text) → (judge p m).0.ended ≡ p.ended
unfolding judge
judge-ended p (inr e) = refl
judge-ended p (inl m) = ground arith

end_session-last :
    (p : Page) (e : Entry) (name : Text) (is_last : Bool) (a : Answer)
    → count_last (end_session p e name is_last a).0.ended ≡ count_last p.ended + bit is_last
unfolding end_session
end_session-last p e name is_last a =
    rw judge-ended (omega (arith, count_last-append p.ended _, single p.all_video e name is_last))
  where
    single :
        (v : Bool) (e : Entry) (name : Text) (l : Bool)
        → count_last (
            (record {
              video = v;
              upload_id = e.upload_id;
              etags = e.etags;
              title = if v then some (video_title name) else none;
              is_last = l;
            })
            ∷ [])
          ≡ bit l
    single v e name l = unfold count_last in omega arith

drop_file-ended : (p : Page) (key node : Text) → (drop_file p key node).0.ended ≡ p.ended
unfolding drop_file
drop_file-ended p key node = ground arith

after_end-ended :
    (pe : Page × Ended) (key node : Text) → (after_end pe key node).0.ended ≡ pe.0.ended
unfolding after_end
after_end-ended (p, rejected) key node = refl
after_end-ended (p, broken e) key node = refl
after_end-ended (p, closed) key node = drop_file-ended p key node

end_entry-last :
    (p : Page) (oe : Option Entry) (key name node : Text) (is_last : Bool) (a : Answer)
    → count_last (end_entry p oe key name node is_last a).0.ended ≤ count_last p.ended + bit is_last
unfolding end_entry
end_entry-last p none key name node is_last a = omega arith
end_entry-last p (some e) key name node is_last a =
    rw after_end-ended (omega (arith, end_session-last p e name is_last a))

after_upload-last :
    (p : Page) (o : Outcome) (key name node : Text) (is_last : Bool) (a : Answer)
    → count_last (after_upload p o key name node is_last a).0.ended
      ≤ count_last p.ended + bit is_last
unfolding after_upload display_fail_texts
after_upload-last p waiting key name node is_last a = omega arith
after_upload-last p (raised e) key name node is_last a = omega arith
after_upload-last p failed key name node is_last a = omega arith
after_upload-last p passed key name node is_last a = end_entry-last p _ key name node is_last a

-- What a round ensures, and what the rest of the loop makes of it.
pub and_then_rule {ℓ κ} :
    (Q : Page → Type ℓ) (R : Page → Type κ) (m : Page × Outcome) (rest : Page → Page × Outcome)
    → Q m.0
    → ((q : Page) → Q q → R q)
    → ((q : Page) → Q q → R (rest q).0)
    → R (and_then m rest).0
unfolding and_then
and_then_rule Q R (p, passed) rest h weaken step = step p h
and_then_rule Q R (p, failed) rest h weaken step = weaken p h
and_then_rule Q R (p, waiting) rest h weaken step = weaken p h
and_then_rule Q R (p, raised e) rest h weaken step = weaken p h

abbrev one_if_any : List LocalFile → ℕ
one_if_any [] = 0
one_if_any (f ∷ fs) = 1

abbrev AtMost : ℕ → Page → Type 0
AtMost n q = count_last q.ended ≤ n

module _ (md5 : Chunk → Text) where
  reupload_one-last :
      (p : Page) (k : Text) (oe : Option Entry) (is_last : Bool) (r : FileReplies)
      → count_last (reupload_one md5 p k oe is_last r).0.ended ≤ count_last p.ended + bit is_last
  unfolding reupload_one
  reupload_one-last p k none is_last r = omega arith
  reupload_one-last p k (some e) is_last r =
      after_upload-last _ _ k e.file_name e.file_name is_last r.end

  upload_one-last :
      (p : Page) (path : Text) (f : LocalFile) (is_last : Bool) (r : FileReplies)
      → count_last (upload_one md5 p path f is_last r).0.ended ≤ count_last p.ended + bit is_last
  unfolding upload_one
  upload_one-last p path f is_last r = after_upload-last _ _ _ _ f.name is_last r.end

  -- A retry of several files never tells the server that a file is the last one.
  pub reupload_each-last :
      (total i : ℕ) (p : Page) (ks : List Text) (rs : List FileReplies)
      → i + length ks ≤ total
      → count_last (reupload_each md5 total i p ks rs).0.ended ≤ count_last p.ended
  unfolding reupload_each
  reupload_each-last total i p [] rs h = omega arith
  reupload_each-last total i p (k ∷ ks) [] h = omega arith
  reupload_each-last total i p (k ∷ ks) (r ∷ rs) h =
      let early : leb total i ≡ false = ground arith in
      and_then_rule (AtMost (count_last p.ended)) (AtMost (count_last p.ended))
        (reupload_one md5 p k (JsMap.get p.uploads.uploading k) (leb total i) r)
        (λ q. reupload_each md5 total (i + 1) q ks rs)
        (rw early (omega (arith, reupload_one-last p k (JsMap.get p.uploads.uploading k) false r)))
        (λ q hq. hq) (λ q hq. omega (arith, reupload_each-last total (i + 1) q ks rs (omega arith)))

  -- The first pass tells the server at most once that a file is the last one, and not at all if it
  -- has no file.
  pub upload_each-last :
      (p : Page) (path : Text) (fs : List LocalFile) (rs : List FileReplies)
      → count_last (upload_each md5 p path fs rs).0.ended ≤ count_last p.ended + one_if_any fs
  unfolding upload_each
  upload_each-last p path [] rs = omega arith
  upload_each-last p path (f ∷ fs) [] = omega arith
  upload_each-last p path (f ∷ []) (r ∷ rs) =
      and_then_rule (AtMost (count_last p.ended + 1)) (AtMost (count_last p.ended + 1))
        (upload_one md5 p path f true r) (λ q. upload_each md5 q path [] rs)
        (omega (arith, upload_one-last p path f true r)) (λ q hq. hq) (λ q hq. hq)
  upload_each-last p path (f ∷ g ∷ fs) (r ∷ rs) =
      and_then_rule (AtMost (count_last p.ended)) (AtMost (count_last p.ended + 1))
        (upload_one md5 p path f false r) (λ q. upload_each md5 q path (g ∷ fs) rs)
        (omega (arith, upload_one-last p path f false r)) (λ q hq. omega arith)
        (λ q hq. omega (arith, upload_each-last q path (g ∷ fs) rs))

after_end_throws :
    (pe : Page × Ended) (key node : Text)
    → pe.1 ≡ closed
    → JsMap.has pe.0.name_nodes node ≡ false
    → (after_end pe key node).1 ≡ type_error
unfolding after_end drop_file
after_end_throws (q, closed) key node h a = rw a
after_end_throws (q, rejected) key node h a = absurd (cc)
after_end_throws (q, broken x) key node h a = absurd (cc)

judge-name_nodes : (p : Page) (m : Text ⊎ Text) → (judge p m).0.name_nodes ≡ p.name_nodes
unfolding judge
judge-name_nodes p (inr e) = refl
judge-name_nodes p (inl m) = ground arith

end_session-name_nodes :
    (p : Page) (e : Entry) (name : Text) (is_last : Bool) (a : Answer)
    → (end_session p e name is_last a).0.name_nodes ≡ p.name_nodes
unfolding end_session
end_session-name_nodes p e name is_last a = judge-name_nodes _ (end_message p.all_video a)

end_entry_throws :
    (p : Page) (oe : Option Entry) (e : Entry) (key name node : Text) (is_last : Bool) (a : Answer)
    → oe ≡ some e
    → (end_session p e name is_last a).1 ≡ closed
    → JsMap.has p.name_nodes node ≡ false
    → (end_entry p oe key name node is_last a).1 ≡ type_error
unfolding end_entry
end_entry_throws p oe e key name node is_last a there ends absent =
    rw (there, end_entry)
      (after_end_throws (end_session p e name is_last a) key node ends
        (rw end_session-name_nodes absent))

after_upload_throws :
    (p : Page) (o : Outcome) (e : Entry) (key name node : Text) (is_last : Bool) (a : Answer)
    → o ≡ passed
    → JsMap.get p.uploads.uploading key ≡ some e
    → (end_session p e name is_last a).1 ≡ closed
    → JsMap.has p.name_nodes node ≡ false
    → (after_upload p o key name node is_last a).1 ≡ type_error
unfolding after_upload
after_upload_throws p passed e key name node is_last a h there ends absent =
    end_entry_throws p _ e key name node is_last a there ends absent
after_upload_throws p failed e key name node is_last a h there ends absent = absurd (cc)
after_upload_throws p waiting e key name node is_last a h there ends absent = absurd (cc)
after_upload_throws p (raised x) e key name node is_last a h there ends absent = absurd (cc)

-- A retry that uploads its file and ends the session throws after that if the list has no line
-- under the entry's full path. The list's lines are named by the chosen files, and an entry by its
-- path below the root, so this is every retry in a folder below the root.
pub reupload_one_throws :
    (md5 : Chunk → Text) (p : Page) (k : Text) (e e' : Entry) (is_last : Bool) (r : FileReplies)
    → (upload_file md5 p.uploads (retry_attempt e) r.upload).1 ≡ passed
    → JsMap.get (upload_file md5 p.uploads (retry_attempt e) r.upload).0.uploading k ≡ some e'
    → (end_session
        (record p { uploads = (upload_file md5 p.uploads (retry_attempt e) r.upload).0 })
        e'
        e.file_name
        is_last
        r.end).1
      ≡ closed
    → JsMap.has p.name_nodes e.file_name ≡ false
    → (reupload_one md5 p k (some e) is_last r).1 ≡ type_error
unfolding reupload_one
reupload_one_throws md5 p k e e' is_last r up there ends absent =
    let u = (upload_file md5 p.uploads (retry_attempt e) r.upload).0 in
    after_upload_throws (record p { uploads = u })
      (upload_file md5 p.uploads (retry_attempt e) r.upload).1 e' k e.file_name e.file_name is_last
      r.end up there ends absent
