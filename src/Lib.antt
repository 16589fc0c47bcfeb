-- ===== src/Lib.antt =====
-- XevXml: the converters between ROSE's abstract syntax tree and XML.
--
-- `src2xml` parses a program with ROSE and writes its tree as an XML document (src/rose2xml.cpp), a user
-- transforms the document, and `xml2src` reads it back into a tree (src/xml2rose.cpp) and unparses it.
-- Each class of ROSE has a method in both directions: `attribSg…` and `inodeSg…` write its attributes
-- and its inner nodes, `visitSg…` reads them; src/expr.cpp and src/value.cpp hold those of expressions,
-- src/stmt.cpp those of statements, src/type.cpp those of types. Both directions use the entities and
-- attribute values of src/xmlutils.cpp and include/xmlutils.hpp, and the comments and directives of
-- src/preproc.cpp.
--
-- The files and the code that they model:
--   Entity            `REPLACE`, `XmlStr2Entity` and `XmlEntity2Str` of src/xmlutils.cpp
--   Stream            how a stringstream prints and reads `int`, `bool` and `unsigned long`
--   Xml               the DOM, the markup on the output stream, `XmlGetAttributeValue`
--   Ast               the classes of include/sgnode.hpp: their kinds, names, and nodes
--   Platform          what is outside the repository, as one record
--   Write             `XevSageVisitor`: Attributes (`attribSg…`), Visit (`visit`, `visitSuccessors`,
--                     `hasInode`, `isInSameFile`, `inodeSg…`, `writePreprocessingInfo`), Document (the
--                     forest that is written), Directives (`removeIncludeDirectives`)
--   Read              `XevXmlVisitor`: Monad (the `SUBTREE_VISIT_…` macros and the fatal errors of
--                     src/common.hpp), Slots and Operands (children sorted into variables), Values,
--                     Symbols, Expressions, Visit (`visit`, `checkExpression`, `checkLocatedNode`,
--                     `checkPreprocInfo`), Losses (what is not read back)
--   RoundTrip         the two directions together, by parts: texts, attributes, literals, comments,
--                     children, classes, and trees
--   Statement         src/stmt.cpp: Node (statements, with their traversal successors), Write
--                     (`attribSg…`, and the frame of `visit`), Text (which lines of a text between
--                     statements are kept), Visitors (the variables of each `visitSg…`), HeadReaders
--                     (what it reads from the attributes), Read (`traverseStatementsAndTexts`, the
--                     visits of children, `checkStatement`), and the theorems: Traversal,
--                     Scopes, Markup, Heads, Labels and HeadReads (attributes), Children, Readable,
--                     Names and Tree (the two directions together)
--   Statement/Io      Fortran's statements for input and output: Kinds (`g_iostmtAttrib`), Write
--                     (`inodeSg…`, `TRAVERSE_IF_EXISTS`), Read (the `switch` of each `visitSg…`), and
--                     the theorems: Names, Fields, Taken, Accepted, Document, Readable, RoundTrip,
--                     Losses
--   Fortran           directives in the comments of a Fortran program, in src/preproc.cpp: Search
--                     (`lastVisibleCharPos`, `findContinuedDirective`), Pragma (`writeFortranPragma`),
--                     Pieces, Joined and Faults (continued directives in free form)
--   Examples          a parser of entities, a program, and the theorems at concrete inputs
--
-- A statement is its class, with what its attributes hold, and the list of its traversal successors,
-- each of which may be NULL, as ROSE's `get_traversalSuccessorByIndex` gives them; a statement for input
-- or output keeps its arguments in fields, one for each attribute. Expressions hold no statements, so
-- that the visitor of an expression's element knows those of expressions only. No declaration is read,
-- so that a new scope has no symbols; `Host` gives it, beside ROSE's enumerators for attached texts.
--
-- The search for the lines of a directive looks at the comments of located nodes only, and marks the
-- objects that it has read, so that it has trees of its own, with an address for each comment; the
-- marks are a part of its state. Where C++ leaves the behaviour open, the result is `none`.
--
-- A text is the list of its bytes. A node that may be NULL is an option, a list of nodes is a data type
-- of its own. A fatal error of the reader (`XEV_FATAL` and the other macros, and a NULL that is
-- dereferenced) ends the run with an error value; the reader's only state is SageBuilder's stack of
-- scopes. The writer's stream is the list of the tags, texts and layout that it puts out.
--
-- Two loops run on fuel. `REPLACE` has one unit more than the text has bytes: each round leaves behind at
-- least one byte of the text. Printing a number has one unit more than its value. Every other function
-- recurses on the tree, the document or a list.
--
-- Outside the repository, and fields of `Platform` therefore: the language of the program, Xerces'
-- decoding of attribute values, the streams at floating-point types, ROSE's symbol tables and scopes,
-- `get_type`, and the line numbers of `Sg_File_Info`. The code of a type (`getMangledTypes` in
-- src/expr.cpp) walks ROSE's types and is a field as well; it is written only, and never read. So are the
-- values of the variables that `XmlGetAttributeValue` does not initialise, which an attribute of
-- white space only leaves as they are, and the arguments of the function around a label of an alternative return.
-- Where such a label stands in no function, the writer ends the program; that case is not modelled.
--
-- Not modelled: declarations (src/decl.cpp), support nodes (src/supp.cpp), the statements that need
-- them (SgAssociateStatement, SgClassDefinition, SgGotoStatement, SgLabelStatement, SgReturnStmt),
-- the types of src/type.cpp that have parts of their own, SgEnumVal, SgCompoundLiteralExp and
-- SgStatementExpression, the calls of `writeFortranPragma` from the frame of the writer, unparsing,
-- the XSLT driver and the commands, which call ROSE, Xerces and Xalan. An element of such a class is
-- an unknown node to the model's reader. The check at the end of
-- `visit`, that a node without a parent is a type or a source file, is left out too: the model reads
-- elements below a parent.
pub mod Prelude
pub mod Entity
pub mod Stream
pub mod Result
pub mod Xml
pub mod Ast
pub mod Platform
pub mod Write
pub mod Read
pub mod RoundTrip
pub mod Statement
pub mod Fortran
pub mod Examples
