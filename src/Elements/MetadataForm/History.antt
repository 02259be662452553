-- ===== src/Elements/MetadataForm/History.antt =====
-- metadata-form.ts and upload-slice.ts: what came last, an edit of the form or inferred metadata.
use mallard.Common.{◌≡◌, ◌≢◌, refl, Bool, if◌then◌else◌}
use mallard.Upload.Actions.{UploadAction, closed, inferred}

-- Whether the form was edited since the dialog was last closed, and whether inferred metadata came
-- after the last edit.
pub data History : Type 0 where
  untouched by_user overwritten : History

abbrev pub after_inference : History → History
after_inference untouched = untouched
after_inference by_user = overwritten
after_inference overwritten = overwritten

abbrev pub after_action : {V : Type 0} → UploadAction V → History → History
after_action closed h = untouched
after_action (inferred m) h = after_inference h
after_action _ h = h

-- A form that puts in a missing date edits the metadata, which no other rendering does.
abbrev pub after_rendering : Bool → History → History
after_rendering lacks_date h = if lacks_date then by_user else h

pub touched_after_inference : (h : History) → h ≢ untouched → after_inference h ≢ untouched
touched_after_inference untouched k = k
touched_after_inference by_user k = λ e. cc
touched_after_inference overwritten k = λ e. cc

pub inference_overwrites : (h : History) → h ≢ untouched → after_inference h ≡ overwritten
inference_overwrites untouched k = absurd (k refl)
inference_overwrites by_user k = refl
inference_overwrites overwritten k = refl
