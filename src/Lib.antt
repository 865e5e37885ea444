-- ===== src/Lib.antt =====
-- A model of the browser client of the streaming service, in JavaScript, with what it promises. All
-- paths are from the repository's root; the client stands under
-- frontend/src/main/resources/static/js/, and a file name without a path is a file of that folder.
--
-- The parts and how they interact. The file browser (file-manager/file-manager-page.js) shows folders:
-- it asks the server for pages of items, keeps them in a FileManager (file-manager/FileManager.js),
-- draws a node for each, and keeps the stack of open folders, the selection and a queue of messages.
-- The search (file-manager/search-file.js) has a second FileManager for results of the server. The
-- upload form (file-manager/manage-upload-file.js) takes the open folder from the browser and hands
-- each chosen file to uploadFile (file-manager/upload-file.js), which cuts it into parts and has four
-- workers store them; a form with files that failed becomes a retry. All requests go through
-- apiRequest (common.js), which adds the CSRF token and refreshes the login once. The search page
-- (search/search-page.js) keeps its search in the address and the storage of the session, and opens
-- results in the overlay (overlay.js); the browse page (browse/browse-page.js) lists names; both show
-- the pagination of pagination.js.
--
-- Files and the code they model:
--   Base/JsMap, Base/Text, Base/Lists, Base/Tests, Base/Endings: JavaScript maps in insertion order,
--     strings as lists of code units, lists and Boolean tests on native numbers.
--   FileManager and its children: the class FileManager. Fields has innerSort and getValue, Sorting has
--     sortFileItems, Search the two lookups by name, Invariant the agreement of list and map, Refined
--     the manager as a list of items.
--   Upload/Chunks: chunkFile. Upload/Workers: the workers of uploadFile, as a pool that takes one answer
--     of the server at a time; Measure and Parts (with Sorted) are its laws. Upload/Session: uploadFile
--     as a whole. Upload/Choose: the files of a choice, their kinds and their order. Upload/Drop: the files of
--     dropped folders, with Sums and Gathered. Upload/Paths:
--     getDirPath and the title of a video. Upload/Manage: manageUploadFile with its two loops,
--     endSession, the submit handler.
--   Common/Request: apiRequest, getCsrfToken, redirectToLogin. Common/Image: validateImage.
--   Browser/State: the variables of the page as one record, and displayFileItem. Browser/Fetch:
--     fetchMoreFiles, getRootDir, setCurrentUri, the sort order. Browser/PathStack and Browser/Navigate:
--     the path bar, the back and home buttons, the start of the page, the observer. Browser/Selection:
--     the selected files with their nodes, and the box of the mouse; Borders, Shown and Drag have the
--     laws. Browser/Menu: the right-click menu, adding as media,
--     deletion. Browser/Change: new folder, rename, move. Browser/Search: search-file.js and the click
--     on a file. Browser/Messages: displayInfoMessage and processQueue. Browser/Format: formatSize,
--     formatDuration, formatDate.
--   Pagination: displayPagination of pagination.js and the handlers of its arrows. Numbers and Arrows are
--     its laws.
--   Polling: pollPlaylistUrl of set-video-url.js, one call; Settling has its laws.
--   SearchPage/Info: currentSearchInfo of search/search-page.js, the addresses of a search and what the
--     page reads of its own (Reload has the laws). SearchPage/Areas: the four keyword areas, with Shown.
--     SearchPage/Send: sendSearchRequest and the handlers that lead to it. SearchPage/Advance: the
--     submission of the advanced form, with Fields, Ranges and Asked. SearchPage/View: viewNextMedia and
--     viewPreviousMedia, with Next and Previous.
--   AlbumPage: the items of album/album-page.js; FullScreen and Resolution: the full screen and the choice
--     of a resolution (with its law). Filled, Played, Started and Stepped have the laws.
--   GrouperPage: the list of album-grouper/album-grouper-page.js; View: the steps in the overlay. Numbers,
--     Redrawn, Reached, Stepped and Lost have the laws.
--   Overlay: the quick view of overlay.js, with Shown. BrowsePage: browse/browse-page.js, with Tabs.
--   NameEditor: the editor of names of upload/modify-media-metadata.js. Listed, Played and Mixed have the
--     laws. NamePage: the page that adds and updates names, upload/modify-name-page.js, with Marked, the
--     laws of what is lit and hidden, and Saved, those of what is sent.
--   Tests: runs of the models on concrete inputs.
--
-- How it is modelled. A handler is a function from the state, its arguments and the answers of the
-- server to a new state and a result; an exception is a result of its own, and so is a handler that
-- still waits. Within uploadFile, in the traversal of dropped folders, in fetchMoreFiles, in the
-- home button and in the message queue the code between two awaits is a step of its own, so that
-- other handlers can come between. The other handlers run with their answers at hand. null and
-- undefined are `none`; a record of the page names only what the code reads again or shows.
-- toLowerCase and toUpperCase are those of ASCII letters. The sort of arrays is stable, as the
-- language demands.
--
-- Bounds and fuel. Sizes, positions and times are natural numbers. chunkFile's loop has as fuel the
-- size of the file over the least chunk size, and two; a round moves on by at least that size. The
-- quotients of chunkFile are exact as long as those of doubles are.
--
-- Parameters. The MD5 of a chunk (the library SparkMD5) and encodeURIComponent are arguments.
--
-- Not modelled: the styles and nodes of the page beyond what is named above, the texts of an item's
-- details, the preview, the position of the menu, the name entities of an upload, the playback and
-- the shared socket of the playlists, the drop-down and the result nodes of the search page, the
-- thumbnails of the browse page, the gestures and the video player of the albums, the title, the
-- deletion and the drop-down of the editor of names, the video pages, and the thumbnails, which are
-- mostly views; the vendored libraries; the services in Java, whose answers are arguments.
pub mod AlbumPage
pub mod Base
pub mod Common
pub mod FileManager
pub mod NameEditor
pub mod NamePage
pub mod Overlay
pub mod Pagination
pub mod Polling
pub mod SearchPage
pub mod GrouperPage
pub mod Upload
pub mod Browser
pub mod BrowsePage
pub mod Tests
