-- ===== src/Template.antt =====
-- `TemplateImpl` of src/core/Template.hpp and src/core/Template.cpp.
use book_filer_module_http.Prelude.{Option, none, [], Text, codes}
use book_filer_module_http.Prelude.Int.{ℤ, success}

-- The Mustache library: its data object, and the rendering of a template.
pub record MustacheLib : Type 1 where
  pub Data : Type 0
  pub new_data : Data
  pub set : Text → Text → Data → Data
  pub render : Text → Data → Text

module _ (M : MustacheLib) (V : Type 0) where
  -- The settings are values of the type `V`, and nothing reads them.
  pub record TemplateImpl : Type 0 where
    pub settings_doc : Option V
    pub template_str : Text
    pub parsed_str : Text
    pub data_object : M.Data

  unfoldable pub new_template : TemplateImpl
  new_template = record {
    settings_doc = none;
    template_str = [];
    parsed_str = [];
    data_object = M.set (codes "test") (codes "value test") M.new_data;
  }

  unfoldable pub set_settings_doc : Option V → TemplateImpl → TemplateImpl × ℤ
  set_settings_doc doc t = (record t { settings_doc = doc }, success)

  -- The file system is a parameter: what `bookfiler::readFile` gives for a path.
  unfoldable pub read_file : (Text → Text) → Text → TemplateImpl → TemplateImpl × ℤ
  read_file file_text path t = (record t { template_str = file_text path }, success)

  -- Both `mergeData`.
  unfoldable pub merge_data {ℓ} : {D : Type ℓ} → D → TemplateImpl → TemplateImpl × ℤ
  merge_data doc t = (t, success)

  -- The value is not used.
  unfoldable pub add_context : Text → Text → TemplateImpl → TemplateImpl × ℤ
  add_context key value t = (record t { data_object = M.set key key t.data_object }, success)

  unfoldable pub parse : TemplateImpl → TemplateImpl × ℤ
  parse t = (record t { parsed_str = M.render t.template_str t.data_object }, success)

  unfoldable pub to_string : TemplateImpl → Text
  to_string t = t.parsed_str
