-- ===== src/Elements/ThumbnailGrid/Loading.antt =====
-- infinite-scrolling-element.ts and thumbnail-grid.ts: the loop that loads content, round by round.
use mathlib.Core.Option
use mallard.Common.{
  ℕ, suc, ◌≡◌, refl, ap, ◌∙◌, some, is_some, Bool, true, false, if◌then◌else◌, Bool-cases, inl, inr,
  ◌⊎◌, text_Eq,
}
use mallard.Types.{ArtifactEntity}
use mallard.Adapter.{IsNormalized, EntityAdapter}
use mallard.Grid.State.{select_id}
use mallard.Elements.Groups.{Browser, Details}
use mallard.Elements.ThumbnailGrid.{
  after_load, ThumbnailGrid, is_busy, is_enough_loaded, map_state, Page, LoopResult, returned,
  load_more_data, load_next_section, measured, load_content_while_needed,
}
use mallard.Elements.ThumbnailGrid.Requesting.{load_more_data-Loads, map_state-busy, IsInSync}

module _ (browser : Browser) {M : Type 0} (details : Details M) where
  module _ (adapter : EntityAdapter (ArtifactEntity M) select_id) where
    abbrev loop : ℕ → Page browser details → LoopResult browser details
    loop = load_content_while_needed browser details adapter

    abbrev measured_page : Page browser details → Page browser details
    measured_page = measured browser details adapter

    loop-busy :
        (fuel : ℕ) (page : Page browser details)
        → is_busy page.element ≡ true
        → loop (suc fuel) page ≡ returned page
    unfolding load_content_while_needed
    loop-busy fuel page busy = rw busy refl

    loop-enough :
        (fuel : ℕ) (page : Page browser details)
        → is_busy page.element ≡ false
        → is_enough_loaded page.element ≡ true
        → loop (suc fuel) page ≡ returned (measured_page page)
    unfolding load_content_while_needed
    loop-enough fuel page free enough = rw (free, enough) refl

    loop-last :
        (fuel : ℕ) (page : Page browser details)
        → is_busy page.element ≡ false
        → is_enough_loaded page.element ≡ false
        → page.element.has_more_pages ≡ false
        → loop (suc fuel) page ≡ returned (measured_page page)
    unfolding load_content_while_needed load_next_section
    loop-last fuel page free short last = rw (free, short, last) refl

    load_next_section-more :
        (page : Page browser details) (element : ThumbnailGrid)
        → page.element.has_more_pages ≡ true
        → map_state browser details
            (load_more_data browser details adapter page.element page.image_view)
            page.element
          ≡ some element
        → load_next_section browser details adapter page
          ≡ some (
            true,
            record {
              image_view = load_more_data browser details adapter page.element page.image_view;
              element = element;
            },
          )
    unfolding load_next_section
    load_next_section-more page element more next =
        let s = load_more_data browser details adapter page.element page.image_view in
        let loaded : ThumbnailGrid → Bool × Page browser details =
          λ e. (true, record { image_view = s; element = e }) in
        ap
          (λ b.
            if b
            then Option.map loaded (map_state browser details s page.element)
            else some (false, page))
          more
        ∙ ap (Option.map loaded) next

    loop-next :
        (fuel : ℕ) (page : Page browser details) (element : ThumbnailGrid)
        → is_busy page.element ≡ false
        → is_enough_loaded page.element ≡ false
        → page.element.has_more_pages ≡ true
        → map_state browser details
            (load_more_data browser details adapter (measured_page page).element page.image_view)
            (measured_page page).element
          ≡ some element
        → loop (suc fuel) page
          ≡ loop fuel (record {
            image_view =
                load_more_data browser details adapter (measured_page page).element page.image_view;
            element = element;
          })
    unfolding load_content_while_needed
    loop-next fuel page element free short more next =
        let next_section =
          after_load browser details adapter
            (load_next_section browser details adapter (measured_page page)) (loop fuel) in
        ap
          (λ b.
            if b
            then returned page
            else if is_enough_loaded page.element
            then returned (measured_page page)
            else next_section)
          free
        ∙ ap (λ b. if b then returned (measured_page page) else next_section) short
        ∙ ap (λ r. after_load browser details adapter r (loop fuel))
            (load_next_section-more (measured_page page) element more next)

    measured-enough :
        (page : Page browser details)
        → is_enough_loaded page.element ≡ true
        → is_enough_loaded (measured_page page).element ≡ true
    unfolding is_enough_loaded
    measured-enough page h = h

    -- Where the element shows a normalised store, and a running query has its page number, the loop
    -- ends after one request at most: it does not throw, and on return the element is busy, or enough
    -- is loaded, or there is nothing more to load.
    pub load_content_while_needed_lem :
        (fuel : ℕ) (page : Page browser details)
        → IsNormalized select_id page.image_view.table
        → IsInSync page.image_view page.element
        → (page.element.is_query_running ≡ true → is_some page.element.query_page_num ≡ true)
        → (page' : Page browser details) × (load_content_while_needed browser details adapter
              (suc (suc fuel))
              page
            ≡ returned page')
          × ((is_busy page'.element ≡ true)
              ⊎ ((is_enough_loaded page'.element ≡ true) ⊎ (page'.element.has_more_pages ≡ false)))
    load_content_while_needed_lem fuel page n sync numbered =
        elim (Bool-cases (is_busy page.element)) [
          | inl busy ↦ (page, loop-busy (suc fuel) page busy, inl busy)
          | inr free ↦ elim (Bool-cases (is_enough_loaded page.element)) [
            | inl enough ↦ (
              measured_page page,
              loop-enough (suc fuel) page free enough,
              inr (inl (measured-enough page enough)),
            )
            | inr short ↦ elim (Bool-cases page.element.has_more_pages) [
              | inr last ↦
                  (measured_page page, loop-last (suc fuel) page free short last, inr (inr last))
              | inl more ↦
                  let same : IsInSync page.image_view (measured_page page).element = record {
                    more = sync.more;
                    running = sync.running;
                    page_num = sync.page_num;
                  } in
                  let (loading, normal) =
                    load_more_data-Loads browser details adapter page.image_view
                      (measured_page page).element n same more numbered in
                  let (element, next, busy) =
                    map_state-busy browser details _ (measured_page page).element normal loading in
                  (
                    _,
                    loop-next (suc fuel) page element free short more next ∙ loop-busy fuel _ busy,
                    inl busy,
                  )
            ]
          ]
        ]
