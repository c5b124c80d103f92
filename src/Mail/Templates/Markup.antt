-- ===== src/Mail/Templates/Markup.antt =====
-- No content of a message can add a tag to it.
use elysiajs_production_api.Base.{
  codes, ℕ, ◌+◌, ◌*◌, ◌≡◌, refl, ◌∙◌, false, Option, none, some, List, [], ◌∷◌, ◌++◌, map, Text,
  is_empty, length, count, count-append, count-none, All-map, ◌==◌, if◌then◌else◌, arith,
}
use elysiajs_production_api.Config.{Env}
use elysiajs_production_api.Mail.Templates.{
  escape_html, EmailContent, paragraph, join_lines, code_box, small_print, rendered, frame_head,
  frame_heading, frame_body, frame_gap, frame_end, render_email_html,
}
use elysiajs_production_api.Mail.Templates.Escapes.{is_markup, unescape_from-escape_html}

-- How many tags a document opens or closes.
pub tags : Text → ℕ
tags = count (λ c. c == 60)

tags-append : (s t : Text) {m n : ℕ} → tags s ≡ m → tags t ≡ n → tags (s ++ t) ≡ m + n
unfolding tags
tags-append s t h k = count-append (λ c. c == 60) s t ∙ omega arith

tags-escape_html : (s : Text) → tags (escape_html s) ≡ 0
unfolding tags
tags-escape_html s =
    count-none (λ c. c == 60) (escape_html s)
      (All-map (λ c. is_markup c ≡ false) _ (λ c h. ground arith) (escape_html s)
        (unescape_from-escape_html s).1)

-- The tags of the fixed parts.
tags-fixed :
    (tags frame_head ≡ 10)
    × (tags frame_heading ≡ 2)
    × (tags frame_body ≡ 1)
    × (tags frame_gap ≡ 0)
    × (tags frame_end ≡ 8)
unfolding tags
tags-fixed = (refl, refl, refl, refl, refl)

tags-element :
    (opening s closing : Text)
    → tags opening ≡ 1
    → tags closing ≡ 1
    → tags (opening ++ (escape_html s ++ closing)) ≡ 2
tags-element opening s closing h k =
    tags-append opening (escape_html s ++ closing) h
      (tags-append (escape_html s) closing (tags-escape_html s) k)

tags-paragraph : (line : Text) → tags (paragraph line) ≡ 2
unfolding tags
tags-paragraph line =
    tags-element
      (codes "<p style=\"margin:0 0 12px;font-size:15px;line-height:1.6;color:#333333;\">") line
      (codes "</p>") refl refl

tags-code_box : (code : Text) → tags (code_box code) ≡ 2
unfolding tags
tags-code_box code =
    tags-element
      (codes
        "<div style=\"margin:20px 0;padding:14px 0;background:#f4f5f7;border-radius:8px;text-align:center;font-family:SFMono-Regular,Menlo,Consolas,monospace;font-size:28px;letter-spacing:8px;color:#111111;\">")
      code (codes "</div>") refl refl

tags-small_print : (footer : Text) → tags (small_print footer) ≡ 2
unfolding tags
tags-small_print footer =
    tags-element
      (codes "<p style=\"margin:16px 0 0;font-size:12px;line-height:1.5;color:#8a8f98;\">") footer
      (codes "</p>") refl refl

tags-nil : tags [] ≡ 0
unfolding tags
tags-nil = refl

tags-line_end : (s : Text) → tags (10 ∷ s) ≡ tags s
unfolding tags
tags-line_end s = refl

tags-join_lines : (lines : List Text) → tags (join_lines (map paragraph lines)) ≡ 2 * length lines
tags-join_lines [] = tags-nil
tags-join_lines (l ∷ []) = tags-paragraph l
tags-join_lines (l ∷ k ∷ lines) =
    tags-append (paragraph l) (10 ∷ join_lines (map paragraph (k ∷ lines))) (tags-paragraph l)
      (tags-line_end _ ∙ tags-join_lines (k ∷ lines))
    ∙ omega arith

-- The tags of a part that may be missing.
abbrev pub part_tags : Option Text → ℕ
part_tags none = 0
part_tags (some t) = if is_empty t then 0 else 2

tags-rendered :
    (render : Text → Text) (part : Option Text)
    → ((t : Text) → tags (render t) ≡ 2)
    → tags (rendered render part) ≡ part_tags part
tags-rendered render none h = tags-nil
tags-rendered render (some []) h = tags-nil
tags-rendered render (some (c ∷ t)) h = h (c ∷ t)

-- The tags of a message are those of the frame, two for each line, and two for a code and for a
-- footer that are there, whatever the texts are, the product's name included: no text that is put into
-- a message opens or closes a tag.
pub tags-render_email_html :
    (env : Env) (content : EmailContent)
    → tags (render_email_html env content)
      ≡ 21 + 2 * length content.lines + part_tags content.code + part_tags content.footer
unfolding render_email_html
tags-render_email_html env content =
    tags-append frame_head _ tags-fixed.0 (
      tags-append (escape_html env.app_name) _ (tags-escape_html env.app_name) (
        tags-append frame_heading _ tags-fixed.1 (
          tags-append (escape_html content.heading) _ (tags-escape_html content.heading) (
            tags-append frame_body _ tags-fixed.2 (
              tags-append (join_lines (map paragraph content.lines)) _
                (tags-join_lines content.lines)
                (tags-append frame_gap _ tags-fixed.3 (
                  tags-append (rendered code_box content.code) _
                    (tags-rendered code_box content.code tags-code_box)
                    (tags-append frame_gap _ tags-fixed.3 (
                      tags-append (rendered small_print content.footer) frame_end
                        (tags-rendered small_print content.footer tags-small_print)
                        tags-fixed.4)))))))))
    ∙ omega arith
