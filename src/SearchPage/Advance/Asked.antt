-- ===== src/SearchPage/Advance/Asked.antt =====
-- What a submission of the advanced form of search-page.js sends.
use streaming_service.Base.JsMap
use streaming_service.Base.{false, some, true}
use streaming_service.Base.JsMap.{JsMap}
use streaming_service.Base.Text.{Text}
use streaming_service.SearchPage.Advance.{Form, Keywords, advance_info, form_ranges, labels}
use streaming_service.SearchPage.Advance.Fields.{count_used, fields_of}
use streaming_service.SearchPage.Info.{SearchRequest, get_advance_search_url}
use streaming_service.SearchPage.Send.{PageState}

-- What the four areas give.
abbrev pub collected : PageState → Keywords
collected s = record {
  include_fields = fields_of true s.areas labels;
  exclude_fields = fields_of false s.areas labels;
  keyword_count = count_used s.areas labels;
}

-- The request of an advanced search.
abbrev pub asked_by : PageState → Form → SearchRequest
asked_by s f = record {
  address = get_advance_search_url (advance_info s.info f (collected s) (form_ranges f));
  body = some (record {
    include_fields = fields_of true s.areas labels;
    exclude_fields = fields_of false s.areas labels;
    range_fields = form_ranges f;
  });
}
