-- ===== src/Lib.antt =====
-- A model of the browser frontend of MALLARD, under mallard/edge/frontend/src: the search language,
-- the state of the home page, the upload dialog, the page elements that act on them, the API
-- client, and a part of the downloads.
--
-- The user types a search, autocomplete.ts reads it as predicates and turns these into queries for
-- the gateway, and thumbnail-grid-slice.ts keeps the artifacts that the queries return, with their
-- thumbnails, metadata and selection, in a normalised table of Redux Toolkit. upload-slice.ts keeps
-- the files that are being uploaded in another such table, api-client.ts makes the requests of
-- both, for a user who is signed in, and downloads.ts names the files of an archive of the selected
-- artifacts.
--
-- Files:
-- Common and its children hold texts as lists of UTF-16 code units, list and option helpers, and
-- integers over the native naturals.
-- Types models types.ts, with the types of the generated API client that it uses.
-- Autocomplete models autocomplete.ts: Autocomplete/Predicate its tokens and predicate classes,
-- Autocomplete/Parse the loop of `parse`, with Parse/Spec a description of what a search means,
-- Autocomplete/Queries the generation of queries, with Queries/Exact what a predicate asks,
-- Autocomplete/Suggestions the excerpts for suggestions, and Autocomplete/Complete the menus and
-- completions, with Complete/Words the words of a search.
-- Adapter is `createEntityAdapter` of Redux Toolkit as an interface with the laws that its
-- documentation states; Adapter/Normalized and the files beside it derive from these laws what the
-- slices need, and Adapter/Tables fills the interface.
-- Grid models thumbnail-grid-slice.ts: Grid/State the state and its entities, Grid/Reducers the
-- reducers, Grid/Requests the extra reducers that follow the asynchronous requests, Grid/Actions the
-- slice's reducer and the states that it reaches, Grid/Thunks the action creators that dispatch others,
-- Grid/Loads the conditions and answers of the asynchronous ones that load, Grid/Deletion and
-- Grid/Selected those that act on the selected artifacts. Grid/Counters relates the two counters of the
-- state to the table; Grid/Release, Grid/Freed and Grid/Selection hold lemmas on revoked object URLs
-- and on the selection, Grid/Ids what the frontend's IDs tell apart.
-- Upload models upload-slice.ts and its types: Upload/State, Upload/Reducers, Upload/Thunks and
-- Upload/Actions as in Grid, Upload/Editable `filterOnlyEditable`, Upload/Counters and
-- Upload/Tracked the upload counters, Upload/Finish the end of an upload.
-- Api models `separateByType` and `getMetadata` of api-client.ts, Api/Updates `batchUpdateMetadata`,
-- whose theorem is in Api/Updated as that of `getMetadata` is in Api/Metadata; Api/Auth the
-- authentication, with auth-callback.ts, Api/Forms the metadata as parameters of a form, Api/Schemas
-- the fields of the gateway, from mallard/gateway/backends/metadata/schemas.py and
-- mallard/gateway/fastapi_utils.py, that such parameters reach, and Api/Requests the other requests
-- and the URLs of artifacts; Downloads the names in `fetchImages` of downloads.ts.
--
-- Elements models the page elements that decide something, each a record of its properties, with
-- `mapState` as a function of the state and the handlers as functions to events, and `dispatch`
-- what the action of an event does to the store at once: Elements/Uploader file-uploader.ts, with
-- Uploader/Throttle and Uploader/Progress on the number of files that are worked on;
-- Elements/MetadataForm metadata-form.ts, with MetadataForm/Sessions the form beside the store, by
-- where the metadata comes from, and MetadataForm/Session what the form shows; Elements/Groups and
-- Elements/ThumbnailGrid thumbnail-grid.ts and infinite-scrolling-element.ts, with Groups/Order the
-- order of the groups over pairs of them;
-- Elements/Container visibility-checking-container.ts, Elements/Section thumbnail-grid-section.ts,
-- which extends it, Elements/NavBar top-nav-bar.ts, Elements/Thumbnail artifact-thumbnail.ts, and
-- Elements/SearchBox search-box.ts.
--
-- A reducer is a function from the action's payload and the state to the state. An action creator
-- that only dispatches is the composition of the reducers; one that revokes object URLs or can
-- throw acts on a store that lists the revoked URLs, and keeps it when it throws. An asynchronous
-- action creator is split at its request: it reads the state at the request, and acts on the store
-- at the request's success, which is any other one. Where the code awaits what can be rejected and
-- goes on, as in `ensureAuthenticated` and `thunkFinishUpload`, the rejection is a value. Counters
-- are integers, since nothing in a reducer keeps them from falling below zero.
--
-- The loop of `parse` runs on fuel, four rounds for each token: a token is looked at once by each
-- of the three predicate classes, and once more where a text ends before it. The digits of a number
-- run on fuel one above the number, which has no more digits than that. The loop that loads content
-- runs on fuel 2 or more, since a request makes the element busy.
--
-- Code outside the repository is a parameter: `Date.parse` and `toISOString` (DateLibrary), `merge`
-- of lodash (Lodash), its `chunk` and its `trim`, `toLowerCase` (an argument `lower`), the entity
-- adapter, the Fief client (FiefAuth), `URL` (UrlLibrary), `urlJoin`, the answers of the gateway,
-- the order of names, the times of dates, the values of inputs, and what the browser measures. Not
-- modelled are the markup of the elements and the elements that only draw, the transport of the
-- requests, the progress of an upload, the streams of a download, and the Python services but for
-- the fields of their metadata.
pub mod Adapter
pub mod Api
pub mod Autocomplete
pub mod Common
pub mod Downloads
pub mod Elements
pub mod Grid
pub mod Types
pub mod Upload
