-- ===== src/Tests/Form.antt =====
-- Runs of the upload form's model: manage-upload-file.js.
use streaming_service.Base.{List, [], false, refl, some, true, ◌∷◌}
use streaming_service.Base.Text.{Text, codes}
use streaming_service.Browser.PathStack.{PathNode}
use streaming_service.Upload.Chunks.{Chunk}
use streaming_service.Upload.Manage.{FileReplies, LocalFile, Page, submit}
use streaming_service.Upload.Manage.FirstPass.{Released, submit-Released}
use streaming_service.Upload.Session.{Entry}
use streaming_service.Upload.Workers.{Etag, answered}

abbrev film : LocalFile
film = record { name = codes "a.mp4"; size = 20000000; mime = codes "v"; last_modified = 1 }

abbrev parts : List Chunk
parts =
    record { part_number = 1; from = 0; upto = 15728640; size = 15728640 }
    ∷ record { part_number = 2; from = 15728640; upto = 20000000; size = 4271360 }
    ∷ []

abbrev same_md5 : Chunk → Text
same_md5 c = codes "m"

abbrev etag_one : Etag
etag_one = record { part = 1; etag = codes "m" }

-- The folder below the root, and an entry whose second part is left for a retry.
abbrev folder : List PathNode
folder =
    record { id = some (codes "r"); name = codes "media" }
    ∷ record { id = some (codes "f"); name = codes "vid" }
    ∷ []

abbrev path : Text
path = codes "vid/a.mp4"

abbrev left_entry : Entry
left_entry = record {
  file_size = 20000000;
  session_id = some (codes "s");
  upload_id = some (codes "i");
  file_name = path;
  chunks = parts;
  etags = etag_one ∷ [];
  part_number = 1;
}

abbrev page : Page
page = record {
  uploads = record { uploading = []; fail_texts = []; progress = 0 };
  file_list = film ∷ [];
  name_nodes = (codes "a.mp4", tt) ∷ [];
  total_progress = 0;
  all_video = true;
  as_video = false;
  submitting = false;
  retry_label = false;
  shown = [];
  ended = [];
}

abbrev retry_page : Page
retry_page = record page {
  uploads = record { uploading = (path, left_entry) ∷ []; fail_texts = []; progress = 15728640 };
}

abbrev good_replies : FileReplies
good_replies = record {
  upload = record {
    session = answered (codes "s");
    initiate = answered (codes "i");
    answers = (0, answered (codes "u")) ∷ (0, answered (codes "m")) ∷ [];
  };
  end = answered (codes "ok");
}

submit-Released_example : Released (submit same_md5 page folder (good_replies ∷ []))
submit-Released_example = submit-Released same_md5 page folder (good_replies ∷ []) refl
